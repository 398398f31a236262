-- ===== src/Ledger/State.antt =====
-- The folded state of src/pumpgrok/ledger/reducer.py.
use pump_grok.Prelude.{ℕ, String, Bool, false, List, [], if◌then◌else◌, str_eq}
use pump_grok.Prelude.Int.{ℤ, pos, ◌+ℤ◌, ltb_ℤ}
use pump_grok.Prelude.Dict.{Dict, total}
use pump_grok.Prelude.Decimal.{Decimal}

pub record PositionView : Type 0 where
  pub mint : String
  pub symbol : String
  pub creator : String
  pub ticket_id : String
  pub correlation_id : String
  pub price_entry : Decimal
  pub price_peak : Decimal
  pub token_units : ℤ
  pub cost_basis_lamports : ℤ
  pub fees_lamports : ℤ
  pub opened_ts_utc : String
  pub last_mtm_lamports : ℤ
  pub last_mtm_venue_fee_lamports : ℤ
  pub last_mtm_ts_utc : String
  pub mtm_source : String
  pub mtm_frozen : Bool

pub record HaltView : Type 0 where
  pub active : Bool
  pub reason : String
  pub since : String

pub record KillSwitchView : Type 0 where
  pub active : Bool
  pub source : String
  pub since : String
  pub flatten_requested : Bool

pub record BreakerView : Type 0 where
  pub state : String
  pub since : String
  pub until : String

pub record ApprovalView : Type 0 where
  pub kind : String
  pub consumed : Bool

pub record CountersView : Type 0 where
  pub trades_today : ℤ
  pub rejected_today : Dict ℤ
  pub fees_today_lamports : ℤ
  pub realized_today_lamports : ℤ

-- An entry of `unknown_events` is the pair that the source prints as "seq:type".
pub record LedgerState : Type 0 where
  pub seq : ℕ
  pub source : String
  pub day_utc : String
  pub day_start_equity_lamports : ℤ
  pub peak_equity_lamports : ℤ
  pub cash_lamports : ℤ
  pub positions : Dict PositionView
  pub halt : HaltView
  pub kill_switch : KillSwitchView
  pub breakers : Dict BreakerView
  pub approvals : Dict ApprovalView
  pub counters : CountersView
  pub last_mtm_ts_utc : String
  pub unknown_events : List (ℕ × String)
  pub meta : Dict String

-- The defaults of the nested models.
abbrev pub no_halt : HaltView
no_halt = record { active = false; reason = ""; since = "" }

abbrev pub no_kill : KillSwitchView
no_kill = record { active = false; source = ""; since = ""; flatten_requested = false }

abbrev pub fresh_counters : CountersView
fresh_counters = record {
  trades_today = pos 0;
  rejected_today = [];
  fees_today_lamports = pos 0;
  realized_today_lamports = pos 0;
}

unfoldable pub initial_state : String → ℤ → String → LedgerState
initial_state source initial_equity_lamports day_utc = record {
  seq = 0;
  source = source;
  day_utc = day_utc;
  day_start_equity_lamports = initial_equity_lamports;
  peak_equity_lamports = initial_equity_lamports;
  cash_lamports = initial_equity_lamports;
  positions = [];
  halt = no_halt;
  kill_switch = no_kill;
  breakers = [];
  approvals = [];
  counters = fresh_counters;
  last_mtm_ts_utc = "";
  unknown_events = [];
  meta = [];
}

-- A position's last mark, or its cost basis until it has one.
unfoldable pub position_value_lamports : PositionView → ℤ
position_value_lamports p =
    if str_eq p.last_mtm_ts_utc "" then p.cost_basis_lamports else p.last_mtm_lamports

-- The term of a position in `sum(... if pos.token_units > 0)`.
unfoldable pub open_value : PositionView → ℤ
unfolding position_value_lamports
open_value p = if ltb_ℤ (pos 0) p.token_units then position_value_lamports p else pos 0

-- `views.equity_lamports`, which `_track_peak` computes in place.
unfoldable pub equity_lamports : LedgerState → ℤ
equity_lamports s = s.cash_lamports +ℤ total open_value s.positions

unfoldable pub track_peak : LedgerState → LedgerState
track_peak s =
    if ltb_ℤ s.peak_equity_lamports (equity_lamports s)
    then record s { peak_equity_lamports = equity_lamports s }
    else s
