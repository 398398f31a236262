-- ===== src/Ledger/Reducer.antt =====
-- `reduce` of src/pumpgrok/ledger/reducer.py and its other handlers. The proofs are in the modules
-- below.
pub mod Frame
pub mod Cash
pub mod Peak
pub mod Latches
pub mod Sale
pub mod Keys
mod Tests
use pump_grok.Prelude.{
  ℕ, ◌+◌, String, Bool, true, false, Option, none, some, List, [], ◌∷◌, ◌++◌, ◌&&◌, if◌then◌else◌,
  str_eq,
}
use pump_grok.Prelude.Int.{ℤ, pos, ◌+ℤ◌, ◌-ℤ◌, ◌*ℤ◌, ltb_ℤ, leb_ℤ, min_ℤ, max_ℤ, floor_div}
use pump_grok.Prelude.Dict.{Dict, lookup, insert, erase}
use pump_grok.Prelude.Decimal.{Decimal, max_decimal, zero_decimal}
use pump_grok.Ledger.Events.{
  Event, Body, order_placed, order_rejected, fill_recorded, position_opened, position_closed,
  mark_to_market, halt_set, halt_cleared, kill_switch_set, kill_switch_cleared, breaker_tripped,
  breaker_reset, daily_rollover, config_changed, live_write_attempted, escalation, journal_note,
  approval_recorded, unknown, PositionOpened, PositionClosed, FillRecorded, OrderRejected,
  MarkToMarket, HaltSet, KillSwitchSet, BreakerTripped, BreakerReset, DailyRollover,
  ApprovalRecorded,
}
use pump_grok.Ledger.State.{
  PositionView, LedgerState, CountersView, no_halt, no_kill, fresh_counters, track_peak,
}
use pump_grok.Ledger.Mark.{Result, ok, ◌>>=◌, Prices, on_mtm}
use pump_grok.Ledger.Fill.{on_position_opened, on_position_closed, on_fill, on_rejected}

unfoldable pub on_halt_set : LedgerState → HaltSet → String → LedgerState
on_halt_set s row ts_utc = record s {
  halt = record { active = true; reason = row.reason; since = ts_utc };
}

unfoldable pub on_halt_cleared : LedgerState → LedgerState
on_halt_cleared s = record s { halt = no_halt }

unfoldable pub on_kill_set : LedgerState → KillSwitchSet → String → LedgerState
on_kill_set s row ts_utc = record s {
  kill_switch = record {
    active = true;
    source = row.origin;
    since = ts_utc;
    flatten_requested = row.flatten_requested;
  };
}

unfoldable pub on_kill_cleared : LedgerState → LedgerState
on_kill_cleared s = record s { kill_switch = no_kill }

unfoldable pub set_breaker : LedgerState → String → String → String → LedgerState
set_breaker s name state since = record s {
  breakers = insert name (record { state = state; since = since; until = "" }) s.breakers;
}

unfoldable pub on_breaker_tripped : LedgerState → BreakerTripped → String → LedgerState
unfolding set_breaker
on_breaker_tripped s row ts_utc = set_breaker s row.breaker "open" ts_utc

unfoldable pub on_breaker_reset : LedgerState → BreakerReset → String → LedgerState
unfolding set_breaker
on_breaker_reset s row ts_utc = set_breaker s row.breaker "closed" ts_utc

unfoldable pub on_rollover : LedgerState → DailyRollover → LedgerState
on_rollover s row = record s {
  day_utc = row.day_utc;
  day_start_equity_lamports = row.day_start_equity_lamports;
  counters = fresh_counters;
}

unfoldable pub on_approval : LedgerState → ApprovalRecorded → LedgerState
on_approval s row = if str_eq row.id "" then s else record s {
  approvals = insert row.id (record { kind = row.kind; consumed = row.consumed }) s.approvals;
}

-- `json.loads` with its guards: text that does not parse, or is no object, has no prices.
module _ (parse_prices : String → Prices) where
  -- The handler that `_HANDLERS` names for the event's type.
  unfoldable pub handle : LedgerState → Body → String → String → Result LedgerState
  handle s (position_opened row) ts cid = ok (on_position_opened s row cid)
  handle s (position_closed row) ts cid = ok (on_position_closed s row)
  handle s (fill_recorded row) ts cid = ok (on_fill s row)
  handle s (order_rejected row) ts cid = ok (on_rejected s row)
  handle s (mark_to_market row) ts cid = on_mtm s (parse_prices row.prices_json) ts
  handle s (halt_set row) ts cid = ok (on_halt_set s row ts)
  handle s (halt_cleared row) ts cid = ok (on_halt_cleared s)
  handle s (kill_switch_set row) ts cid = ok (on_kill_set s row ts)
  handle s (kill_switch_cleared row) ts cid = ok (on_kill_cleared s)
  handle s (breaker_tripped row) ts cid = ok (on_breaker_tripped s row ts)
  handle s (breaker_reset row) ts cid = ok (on_breaker_reset s row ts)
  handle s (daily_rollover row) ts cid = ok (on_rollover s row)
  handle s (approval_recorded row) ts cid = ok (on_approval s row)
  handle s (order_placed row) ts cid = ok s
  handle s (config_changed row) ts cid = ok s
  handle s (live_write_attempted row) ts cid = ok s
  handle s (escalation row) ts cid = ok s
  handle s (journal_note row) ts cid = ok s
  handle s (unknown type) ts cid = ok s

  -- What the driver writes besides: the sequence number, and a type that has no handler.
  unfoldable pub stamp : ℕ → Body → LedgerState → LedgerState
  stamp seq (unknown type) s = record s {
    seq = seq;
    unknown_events = s.unknown_events ++ (seq, type) ∷ [];
  }
  stamp seq _ s = record s { seq = seq }

  unfoldable pub reduce : LedgerState → Event → Result LedgerState
  reduce s e = handle s e.body e.ts_utc e.correlation_id >>= λ t. ok (stamp e.seq e.body t)

  -- The loop of `_fold`: every stored event in order.
  unfoldable pub fold : LedgerState → List Event → Result LedgerState
  fold s [] = ok s
  fold s (e ∷ es) = reduce s e >>= λ t. fold t es
