-- ===== src/Ledger/Reducer/Latches.antt =====
-- The halt and the kill switch are latches: set by one event type, cleared by one, and by
-- nothing else.
use pump_grok.Prelude.{ℕ, String, true, false, ◌≡◌, refl, List, [], ◌∷◌, arith}
use pump_grok.Prelude.Dict.{lookup}
use pump_grok.Ledger.Events.{
  Event, Body, FillRecorded, fill_recorded, halt_set, halt_cleared, kill_switch_set,
  kill_switch_cleared, unknown,
}
use pump_grok.Ledger.State.{LedgerState, PositionView, HaltView, KillSwitchView}
use pump_grok.Prelude.{Option, none, some}
use pump_grok.Ledger.Mark.{Prices, ok, on_mtm}
use pump_grok.Ledger.Fill.{on_position_opened, on_position_closed, filled, on_fill, on_rejected}
use pump_grok.Ledger.Reducer.{
  on_halt_set, on_halt_cleared, on_kill_set, on_kill_cleared, on_breaker_tripped, on_breaker_reset,
  on_rollover, on_approval, handle, stamp, reduce, fold,
}
use pump_grok.Ledger.Reducer.Frame.{track_peak-halt, track_peak-kill, >>=-eq-ok}

-- The latches alone, without the state: what the last event of their own types said, and when.
abbrev pub halt_after : HaltView → Body → String → HaltView
halt_after v (halt_set row) ts = record { active = true; reason = row.reason; since = ts }
halt_after v (halt_cleared row) ts = record { active = false; reason = ""; since = "" }
halt_after v _ ts = v

abbrev pub kill_after : KillSwitchView → Body → String → KillSwitchView
kill_after v (kill_switch_set row) ts = record {
  active = true;
  source = row.origin;
  since = ts;
  flatten_requested = row.flatten_requested;
}
kill_after v (kill_switch_cleared row) ts = record {
  active = false;
  source = "";
  since = "";
  flatten_requested = false;
}
kill_after v _ ts = v

abbrev pub last_halt : HaltView → List Event → HaltView
last_halt v [] = v
last_halt v (e ∷ es) = last_halt (halt_after v e.body e.ts_utc) es

abbrev pub last_kill : KillSwitchView → List Event → KillSwitchView
last_kill v [] = v
last_kill v (e ∷ es) = last_kill (kill_after v e.body e.ts_utc) es

abbrev Latched : LedgerState → HaltView → KillSwitchView → Type 0
Latched s h k = (s.halt ≡ h) × (s.kill_switch ≡ k)

filled-Latched :
    (s : LedgerState) (row : FillRecorded) (p : Option PositionView)
    → Latched (filled s row p) s.halt s.kill_switch
unfolding filled
filled-Latched s row none = (refl, refl)
filled-Latched s row (some p) = (refl, refl)

on_fill-Latched :
    (s : LedgerState) (row : FillRecorded) → Latched (on_fill s row) s.halt s.kill_switch
unfolding on_fill
on_fill-Latched s row =
    grind
      (arith, filled-Latched s row (lookup row.mint s.positions), track_peak-halt, track_peak-kill)

module _ (parse_prices : String → Prices) where
  handle-Latched :
      (s t : LedgerState) (b : Body) (ts cid : String)
      → handle parse_prices s b ts cid ≡ ok t
      → Latched t (halt_after s.halt b ts) (kill_after s.kill_switch b ts)
  unfolding handle on_position_opened on_position_closed on_rejected on_mtm on_halt_set
      on_halt_cleared on_kill_set on_kill_cleared on_breaker_tripped on_breaker_reset on_rollover
      on_approval
  handle-Latched s t (fill_recorded row) ts cid e = grind (arith, on_fill-Latched s row)
  handle-Latched s t b ts cid e = grind (arith, track_peak-halt, track_peak-kill)

  stamp-Latched :
      (n : ℕ) (b : Body) (s : LedgerState) → Latched (stamp parse_prices n b s) s.halt s.kill_switch
  unfolding stamp
  stamp-Latched n (unknown type) s = (refl, refl)
  stamp-Latched n b s = (refl, refl)

  reduce-Latched :
      (s t : LedgerState) (e : Event)
      → reduce parse_prices s e ≡ ok t
      → Latched t (halt_after s.halt e.body e.ts_utc) (kill_after s.kill_switch e.body e.ts_utc)
  unfolding reduce
  reduce-Latched s t e r =
      let (u, first, last) =
        >>=-eq-ok (handle parse_prices s e.body e.ts_utc e.correlation_id) _ r in
      grind (
        arith,
        handle-Latched s u e.body e.ts_utc e.correlation_id first,
        stamp-Latched e.seq e.body u,
      )

  -- After any run of events that folds, the halt and the kill switch are each what the last
  -- event of their own set or clear type left, with its reason or origin, its time and its flatten
  -- request, and what they were before if there is none: a rollover, a fill or any other event
  -- changes neither.
  pub fold-latches :
      (s t : LedgerState) (es : List Event)
      → fold parse_prices s es ≡ ok t
      → (t.halt ≡ last_halt s.halt es) × (t.kill_switch ≡ last_kill s.kill_switch es)
  unfolding fold
  fold-latches s t [] r = grind arith
  fold-latches s t (e ∷ es) r =
      let (u, first, rest) = >>=-eq-ok (reduce parse_prices s e) _ r in
      grind (arith, reduce-Latched s u e first, fold-latches u t es rest)
