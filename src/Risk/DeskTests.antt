-- ===== src/Risk/DeskTests.antt =====
-- What the engine does round its walk: a flatten, a cleared halt, and repeated checks.
use pump_grok.Prelude.{◌≡◌, refl, ℕ, ◌≤◌, Bool, true, false, String, none, some, List, [], ◌∷◌, map}
use pump_grok.Prelude.Int.{ℤ, pos, leb_ℤ}
use pump_grok.Prelude.Lists.{length}
use pump_grok.Prelude.Dict.{Dict}
use pump_grok.Prelude.Decimal.{Decimal, zero_decimal}
use pump_grok.Ledger.Events.{Event, paper}
use pump_grok.Ledger.State.{LedgerState, PositionView, initial_state}
use pump_grok.Ledger.Mark.{Prices, Result, ok, corrupt}
use pump_grok.Ledger.Reducer.{fold, reduce, handle}
use pump_grok.Core.Approval.{ApprovalRecord, halt_clear}
use pump_grok.Risk.KillSwitch.Model.{TextOps, joined, starts_with, drop_chars}
use pump_grok.Risk.KillSwitch.Clear.{Hashing, by_human, key_taken}
use pump_grok.Risk.Engine.Vocabulary.{accepted, manual_ticket, paper as mode_paper, halted}
use pump_grok.Risk.Engine.Model.{Engine, Ask, Walk, pass}
use pump_grok.Risk.Engine.Context.{World, new_ask}
use pump_grok.Risk.Engine.Walk.{run_step}
use pump_grok.Risk.Engine.Flatten.{FlattenOrder, plan_flatten, flatten_order}
use pump_grok.Risk.Engine.Planned.{sold, holdings, AllPass, AllBuild, plan_flatten-AllPass}
use pump_grok.Risk.Engine.HaltClear.{
  halt_body, halt_approval_body, halt_clear_rows, halt_cleared_in, request_halt_clear, IsCleared,
  request_halt_clear-resumes,
}
use pump_grok.Risk.Engine.Cache.{
  decision_cache_max, AllEvaluated, check_all, check_all-AllEvaluated,
}
use pump_grok.Execution.Orders.Journal.{append_rows}

abbrev one : Decimal
one = record { coefficient = pos 1; places = 0 }

abbrev state : LedgerState
state = initial_state "paper" (pos 100_000) "2026-01-01"

abbrev halted_state : LedgerState
halted_state = record state { halt = record { active = true; reason = "drawdown"; since = "t" } }

abbrev engine : Engine
engine = record {
  mode = mode_paper;
  autonomy = manual_ticket;
  max_trade_fraction = one;
  max_token_fraction = one;
  daily_loss_halt_fraction = one;
  max_open_positions = pos 3;
  max_trades_per_day = pos 20;
  liquidity_floor_multiple = pos 20;
  min_trade_lamports = pos 1;
  one_position_per_creator = true;
  realized_basis = false;
  mtm_interval_s = pos 60;
  observe_only = "bot-06-exit" ∷ [];
  is_degraded = true;
  unmet_live = [];
  calling_seat = none;
  is_verified = true;
  is_cleared_today = false;
  store_fold = λ rows. state;
  drawdown_reached = λ peak equity. true;
  mark_age = λ ts. pos 0;
  reserves = λ mint. none;
  creator_of = λ mint s. "";
  fresh_id = "F1";
  now_iso = "t";
}

abbrev held : ℤ → PositionView
held units = record {
  mint = "";
  symbol = "";
  creator = "";
  ticket_id = "T1";
  correlation_id = "C1";
  price_entry = zero_decimal;
  price_peak = zero_decimal;
  token_units = units;
  cost_basis_lamports = pos 5;
  fees_lamports = pos 0;
  opened_ts_utc = "t";
  last_mtm_lamports = pos 0;
  last_mtm_venue_fee_lamports = pos 0;
  last_mtm_ts_utc = "";
  mtm_source = "";
  mtm_frozen = false;
}

-- Two positions are held, and a third is closed.
abbrev positions : Dict PositionView
positions = ("M1", held (pos 40)) ∷ ("M2", held (pos 0)) ∷ ("M3", held (pos 7)) ∷ []

abbrev stopped : World
stopped = record {
  kill = true;
  open_breakers = "loss_velocity" ∷ [];
  probes = record { half_all = []; owned = []; half_avail = [] };
  killed_mints = [];
  approvals = [];
}

abbrev walk : LedgerState → Walk
walk s = record {
  state = s;
  equity = pos 100_000;
  approval = none;
  final_size = pos 0;
  caps = [];
  capped = false;
  rows = [];
}

abbrev ulid : ℕ → String
ulid n = "U"

-- The models' bound on the units of a sell.
abbrev sells_some : FlattenOrder → Bool
sells_some f = elim f.order.token_units [ none ↦ false | some units ↦ leb_ℤ (pos 1) units ]

plan_flatten-AllPass_example :
    (fs : List FlattenOrder) × (plan_flatten ulid "t" (pos 500) "C1" sells_some 0 positions
      ≡ some fs)
    × (map sold fs ≡ holdings positions)
    × AllPass engine stopped (walk halted_state) fs
plan_flatten-AllPass_example =
    plan_flatten-AllPass ulid "t" (pos 500) "C1" sells_some engine stopped (walk halted_state) 0
      positions accepted_all refl refl
  where
    accepted_all : AllBuild ulid "t" (pos 500) "C1" sells_some positions
    accepted_all = unfold flatten_order in (λ held n. refl, (λ held n. cc, (λ held n. refl, tt)))

abbrev ops : TextOps
ops = record { strip = λ s. s; head_words = λ s. []; match_kill = λ s. none; first_line = λ s. s }

abbrev hashing : Hashing
hashing = record { sha256 = λ s. s; decimal = λ n. "1" }

abbrev never : String → Bool
never text = false

abbrev clearance : ApprovalRecord
clearance = record {
  id = "A9";
  kind = halt_clear;
  ticket_id = none;
  mint = none;
  size_lamports = none;
  token_units = none;
  max_slippage_bps = none;
  exit_rule_id = none;
  approved_by = "human:ann";
  raw_message = "";
  at = "t";
  consumed = false;
}

abbrev clear_events : List Event
clear_events =
    record { seq = 1; ts_utc = "t"; correlation_id = "C1"; body = halt_body paper clearance "over" }
    ∷ record {
      seq = 2;
      ts_utc = "t";
      correlation_id = "C1";
      body = halt_approval_body paper clearance "over";
    }
    ∷ []

abbrev no_prices : String → Prices
no_prices text = []

abbrev state_of : Result LedgerState → LedgerState
state_of (ok s) = s
state_of corrupt = state

abbrev cleared_state : LedgerState
cleared_state = state_of (fold no_prices halted_state clear_events)

abbrev idle : Ask
idle =
    new_ask (flatten_order ulid "t" (pos 500) "C1" 0 "M1" (held (pos 40))).order none none none
      accepted stopped

request_halt_clear-resumes_example :
    IsCleared ops hashing never clearance "over" paper halted_state []
      (halt_clear_rows paper clearance "over")
    × (cleared_state.halt.active ≡ false)
    × (run_step engine idle halted (walk cleared_state) ≡ pass (walk cleared_state))
request_halt_clear-resumes_example =
    request_halt_clear-resumes no_prices ops hashing never clearance "over" paper halted_state
      cleared_state [] (halt_clear_rows paper clearance "over") clear_events engine idle
      (walk cleared_state) cleared (refl, (refl, tt)) folds refl
  where
    cleared :
        request_halt_clear ops hashing never clearance "over" paper halted_state []
        ≡ halt_cleared_in (halt_clear_rows paper clearance "over")
    cleared =
        unfold request_halt_clear by_human starts_with drop_chars key_taken append_rows
          halt_clear_rows joined in
        refl

    folds : fold no_prices halted_state clear_events ≡ ok cleared_state
    folds = unfold fold reduce handle halt_body halt_approval_body in refl

-- The second check finds the first one's decision.
abbrev checks : List (String × Bool)
checks = ("K1", true) ∷ ("K1", false) ∷ ("K2", false) ∷ []

check_all-AllEvaluated_example :
    AllEvaluated [] checks (check_all decision_cache_max checks []).0
    × (length (check_all decision_cache_max checks []).1 ≤ decision_cache_max)
check_all-AllEvaluated_example = check_all-AllEvaluated checks
