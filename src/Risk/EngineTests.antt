-- ===== src/Risk/EngineTests.antt =====
-- The step walk on a buy that passes, at the desk's first trade of a day.
use pump_grok.Prelude.{◌≡◌, refl, true, false, none, some, [], ◌∷◌}
use pump_grok.Prelude.Int.{pos, ◌+ℤ◌, ◌-ℤ◌, ◌*ℤ◌}
use pump_grok.Prelude.Dict.{lookup, insert, total}
use pump_grok.Prelude.Lists.{contains}
use pump_grok.Ledger.State.{LedgerState, initial_state, equity_lamports, open_value}
use pump_grok.Core.Order.{buy, OrderRequest}
use pump_grok.Core.Approval.{human_buy, ApprovalRecord, matches, size_matches, legs_match}
use pump_grok.Risk.Engine.Model.{Engine, Ask, Walk, pass}
use pump_grok.Risk.Engine.Vocabulary.{accepted, paper, manual_ticket}
use pump_grok.Risk.Engine.Walk.{
  evaluate, walk_steps, confirm_holding, skip_step, run_step, step_breaker_open, step_live_gate,
  open_count, creator_open, has_stale,
}
use pump_grok.Risk.Engine.Approvals.{
  step_approval_missing, presented, step_approval_mismatch, mismatch, step_seat_may_trade,
  may_not_trade,
}
use pump_grok.Risk.Engine.Limits.{
  step_max_trade_fraction, step_max_token_fraction, step_drawdown_halt, fraction_of, truncate,
  after_breach, detect_breach, equity_for_halts,
}
use pump_grok.Risk.Engine.Gates.{IsClear, evaluate-IsClear}
use pump_grok.Risk.Engine.Exposure.{IsFree, evaluate-IsFree}
use pump_grok.Risk.Engine.Sizing.{IsSized, evaluate-IsSized}

abbrev state : LedgerState
state = initial_state "paper" (pos 100_000) "2026-01-01"

abbrev order : OrderRequest
order = record {
  ticket_id = "k1";
  mint = "M";
  side = buy;
  decision_id = "d1";
  size_lamports = some (pos 7_000);
  token_units = none;
  max_slippage_bps = pos 500;
  approval_id = "a1";
  quote_id = none;
  exit_reason = none;
  correlation_id = "c1";
}

abbrev approval_record : ApprovalRecord
approval_record = record {
  id = "a1";
  kind = human_buy;
  ticket_id = some "k1";
  mint = some "M";
  size_lamports = some (pos 7_000);
  token_units = none;
  max_slippage_bps = some (pos 500);
  exit_rule_id = none;
  approved_by = "operator";
  raw_message = "APPROVE BUY k1";
  at = "t";
  consumed = false;
}

-- Five percent a trade and ten percent a token, of an equity of 100,000.
abbrev pub engine : Engine
engine = record {
  mode = paper;
  autonomy = manual_ticket;
  max_trade_fraction = record { coefficient = pos 5; places = 2 };
  max_token_fraction = record { coefficient = pos 10; places = 2 };
  daily_loss_halt_fraction = record { coefficient = pos 5; places = 2 };
  max_open_positions = pos 3;
  max_trades_per_day = pos 20;
  liquidity_floor_multiple = pos 20;
  min_trade_lamports = pos 1_000;
  one_position_per_creator = true;
  realized_basis = false;
  mtm_interval_s = pos 60;
  observe_only = [];
  is_degraded = false;
  unmet_live = "gate" ∷ [];
  calling_seat = some "bot-04-sniper";
  is_verified = true;
  is_cleared_today = false;
  store_fold = λ rows. state;
  drawdown_reached = λ peak equity. false;
  mark_age = λ ts. pos 0;
  reserves = λ mint. some (pos 1_000_000, pos 5_000_000);
  creator_of = λ mint s. "creator";
  fresh_id = "f1";
  now_iso = "t";
}

abbrev pub ask : Ask
ask = record {
  order = order;
  seat = none;
  exit_reason = none;
  creator = none;
  stage = accepted;
  is_exit_sell = false;
  kill = false;
  open_breakers = [];
  half_blocked = false;
  killed = "other" ∷ [];
  approvals = ("a1", approval_record) ∷ [];
}

abbrev pub walk : Walk
walk = record {
  state = state;
  equity = pos 100_000;
  approval = none;
  final_size = pos 7_000;
  caps = [];
  capped = false;
  rows = [];
}

abbrev pub sized : Walk
sized = record walk {
  approval = some approval_record;
  final_size = pos 5_000;
  caps = ("max_trade_fraction", pos 5_000) ∷ [];
  capped = true;
}

pub passes : evaluate engine ask walk ≡ pass sized
unfolding evaluate walk_steps confirm_holding skip_step run_step step_breaker_open step_live_gate
    step_approval_missing presented step_approval_mismatch mismatch step_seat_may_trade
    may_not_trade step_max_trade_fraction step_max_token_fraction step_drawdown_halt fraction_of
    truncate after_breach detect_breach equity_for_halts open_count creator_open has_stale contains
    lookup insert total matches size_matches legs_match initial_state equity_lamports open_value
    ◌+ℤ◌ ◌-ℤ◌ ◌*ℤ◌
passes = refl

evaluate-IsClear_example : IsClear engine ask walk
evaluate-IsClear_example = evaluate-IsClear engine ask walk sized refl refl passes

evaluate-IsSized_example : IsSized engine ask walk (pos 5_000)
evaluate-IsSized_example = evaluate-IsSized engine ask walk sized refl refl passes

evaluate-IsFree_example : IsFree engine ask state
evaluate-IsFree_example = evaluate-IsFree engine ask walk sized refl refl passes
