-- ===== src/Ledger/Reducer/Cash.antt =====
-- Every lamport of cash is accounted for by the events.
use pump_grok.Prelude.{ℕ, String, ◌≡◌, refl, Option, none, some, List, [], ◌∷◌, arith}
use pump_grok.Prelude.Int.{ℤ, pos, ◌+ℤ◌, ◌-ℤ◌, int_laws}
use pump_grok.Prelude.Dict.{lookup}
use pump_grok.Ledger.Events.{
  Event, Body, FillRecorded, fill_recorded, order_rejected, mark_to_market, unknown,
}
use pump_grok.Ledger.State.{LedgerState, PositionView}
use pump_grok.Ledger.Mark.{Prices, ok, on_mtm}
use pump_grok.Ledger.Fill.{on_position_opened, on_position_closed, filled, on_fill, on_rejected}
use pump_grok.Ledger.Reducer.{
  on_halt_set, on_halt_cleared, on_kill_set, on_kill_cleared, on_breaker_tripped, on_breaker_reset,
  on_rollover, on_approval, handle, stamp, reduce, fold,
}
use pump_grok.Ledger.Reducer.Frame.{track_peak-cash, >>=-eq-ok}

-- The cash that an event moves: a fill's cash delta, and the fees of a rejection.
abbrev pub cash_delta : Body → ℤ
cash_delta (fill_recorded row) = row.cash_delta_lamports
cash_delta (order_rejected row) = pos 0 -ℤ row.fees_lamports
cash_delta _ = pos 0

abbrev pub cash_flow : List Event → ℤ
cash_flow [] = pos 0
cash_flow (e ∷ es) = cash_delta e.body +ℤ cash_flow es

filled-cash :
    (s : LedgerState) (row : FillRecorded) (p : Option PositionView)
    → (filled s row p).cash_lamports ≡ s.cash_lamports +ℤ row.cash_delta_lamports
unfolding filled
filled-cash s row none = refl
filled-cash s row (some p) = refl

on_fill-cash :
    (s : LedgerState) (row : FillRecorded)
    → (on_fill s row).cash_lamports ≡ s.cash_lamports +ℤ row.cash_delta_lamports
unfolding on_fill
on_fill-cash s row = rw track_peak-cash (filled-cash s row (lookup row.mint s.positions))

on_mtm-cash :
    (s t : LedgerState) (prices : Prices) (ts : String)
    → on_mtm s prices ts ≡ ok t
    → t.cash_lamports ≡ s.cash_lamports
unfolding on_mtm
on_mtm-cash s t prices ts h = grind (arith, track_peak-cash)

module _ (parse_prices : String → Prices) where
  handle-cash :
      (s t : LedgerState) (b : Body) (ts cid : String)
      → handle parse_prices s b ts cid ≡ ok t
      → t.cash_lamports ≡ s.cash_lamports +ℤ cash_delta b
  unfolding handle on_position_opened on_position_closed on_rejected on_halt_set on_halt_cleared
      on_kill_set on_kill_cleared on_breaker_tripped on_breaker_reset on_rollover on_approval
  handle-cash s t (fill_recorded row) ts cid h = grind (int_laws, on_fill-cash)
  handle-cash s t (mark_to_market row) ts cid h =
      grind (int_laws, on_mtm-cash s t (parse_prices row.prices_json) ts h)
  handle-cash s t b ts cid h = grind (int_laws, track_peak-cash)

  stamp-cash :
      (n : ℕ) (b : Body) (s : LedgerState)
      → (stamp parse_prices n b s).cash_lamports ≡ s.cash_lamports
  unfolding stamp
  stamp-cash n (unknown type) s = refl
  stamp-cash n b s = refl

  reduce-cash :
      (s t : LedgerState) (e : Event)
      → reduce parse_prices s e ≡ ok t
      → t.cash_lamports ≡ s.cash_lamports +ℤ cash_delta e.body
  unfolding reduce
  reduce-cash s t e h =
      let (u, first, last) =
        >>=-eq-ok (handle parse_prices s e.body e.ts_utc e.correlation_id) _ h in
      cc (handle-cash s u e.body e.ts_utc e.correlation_id first, stamp-cash e.seq e.body u)

  -- After any run of events that folds, the cash is the starting cash plus the cash deltas of the
  -- fills less the fees of the rejections, and nothing else moves it.
  pub fold-cash :
      (s t : LedgerState) (es : List Event)
      → fold parse_prices s es ≡ ok t
      → t.cash_lamports ≡ s.cash_lamports +ℤ cash_flow es
  unfolding fold
  fold-cash s t [] h = grind int_laws
  fold-cash s t (e ∷ es) h =
      let (u, first, rest) = >>=-eq-ok (reduce parse_prices s e) _ h in
      rw (fold-cash u t es rest, reduce-cash s u e first) (omega int_laws)
