-- ===== src/Execution/Adapter/Quiet.antt =====
-- The rows between the orders of a day, and the row of a refused order: what they do to the books.
use pump_grok.Prelude.{
  String, Option, none, some, [], ◌∷◌, ◌≡◌, refl, inl, inr, Bool-cases, subst, sym, ap, ◌∙◌, str_eq,
}
use pump_grok.Prelude.Int.{pos, ◌+ℤ◌, ◌≤ℤ◌, int_laws, pos_part, neg_part}
use pump_grok.Prelude.Dict.{
  Dict, AllEntries, lookup, insert, total, total-insert, insert-AllEntries, lookup-AllEntries,
}
use pump_grok.Ledger.Events.{
  Event, Body, OrderRejected, fill_recorded, position_opened, position_closed, order_rejected,
  daily_rollover, mark_to_market, approval_recorded, ApprovalRecorded,
}
use pump_grok.Ledger.State.{LedgerState, PositionView, track_peak}
use pump_grok.Ledger.Mark.{Prices, Mark, ok, marked, marked_peak, mark_one, mark_all, on_mtm}
use pump_grok.Ledger.Fill.{on_rejected}
use pump_grok.Ledger.Reducer.{
  on_halt_set, on_halt_cleared, on_kill_set, on_kill_cleared, on_breaker_tripped, on_breaker_reset,
  on_approval, handle, reduce,
}
use pump_grok.Ledger.Reducer.Frame.{track_peak-positions, ok-injective, >>=-eq-ok}
use pump_grok.Execution.Adapter.Model.{Placing, Refusal, refusal_row}
use pump_grok.Execution.Adapter.Books.{cost_of, books, track_peak-books, on_rejected-books}
use pump_grok.Execution.Adapter.Rows.{SameBooks, reduce-SameBooks, reduce-rejected}
use pump_grok.Execution.Adapter.Settled.{HasUnits, HoldsUnits}

-- A row that no order settles with and that starts no new day: marks, halts, the kill switch,
-- breakers, approvals, orders written, notes.
abbrev pub IsQuiet : Body → Type 0
IsQuiet (fill_recorded row) = ⊥
IsQuiet (position_opened row) = ⊥
IsQuiet (position_closed row) = ⊥
IsQuiet (order_rejected row) = ⊥
IsQuiet (daily_rollover row) = ⊥
IsQuiet _ = Unit

-- The cost of what is held, and that every position holds units.
abbrev Kept : Dict PositionView → Dict PositionView → Type 0
Kept d d' = (total cost_of d' ≡ total cost_of d) × AllEntries HasUnits d'

insert-Kept :
    (mint : String) (p q : PositionView) (d : Dict PositionView)
    → AllEntries HasUnits d
    → lookup mint d ≡ some p
    → q.cost_basis_lamports ≡ p.cost_basis_lamports
    → q.token_units ≡ p.token_units
    → Kept d (insert mint q d)
insert-Kept mint p q d h e cost units =
    let moved = total-insert cost_of mint q p d e in
    (
      omega (int_laws, ap pos_part moved, ap neg_part moved, ap pos_part cost, ap neg_part cost),
      insert-AllEntries HasUnits mint q d
          (subst (λ n. pos 1 ≤ℤ n) (sym units) (lookup-AllEntries HasUnits mint p d h e)) h,
    )

mark_one-Kept :
    (ts mint : String) (m : Mark) (d d' : Dict PositionView) (o : Option PositionView)
    → AllEntries HasUnits d
    → lookup mint d ≡ o
    → mark_one ts mint m o d ≡ ok d'
    → Kept d d'
unfolding mark_one marked
mark_one-Kept ts mint m d d' none h e r = subst (Kept d) (ok-injective d d' r) (refl, h)
mark_one-Kept ts mint m d d' (some p) h e r = elim (Bool-cases p.mtm_frozen) [
  | inl f ↦ subst (Kept d) (ok-injective d d' (rw f at r)) (refl, h)
  | inr f ↦
      let (peak, _, last) = >>=-eq-ok (marked_peak p.price_peak m.spot) _ (rw f at r) in
      subst (Kept d) (ok-injective _ d' last) (insert-Kept mint p _ d h e refl refl)
]

mark_all-Kept :
    (ts : String) (prices : Prices) (d d' : Dict PositionView)
    → AllEntries HasUnits d
    → mark_all ts prices d ≡ ok d'
    → Kept d d'
unfolding mark_all
mark_all-Kept ts [] d d' h r = subst (Kept d) (ok-injective d d' r) (refl, h)
mark_all-Kept ts ((mint, none) ∷ prices) d d' h r = mark_all-Kept ts prices d d' h r
mark_all-Kept ts ((mint, some m) ∷ prices) d d' h r =
    let (u, first, rest) = >>=-eq-ok (mark_one ts mint m (lookup mint d) d) _ r in
    let (cost, units) = mark_one-Kept ts mint m d u (lookup mint d) h refl first in
    let (cost', units') = mark_all-Kept ts prices u d' units rest in (cost' ∙ cost, units')

on_mtm-books :
    (s t : LedgerState) (prices : Prices) (ts : String)
    → HoldsUnits s
    → on_mtm s prices ts ≡ ok t
    → (books t ≡ books s) × HoldsUnits t
unfolding on_mtm
on_mtm-books s t prices ts h r =
    let (d, first, last) = >>=-eq-ok (mark_all ts prices s.positions) _ r in
    let (cost, units) = mark_all-Kept ts prices s.positions d h first in
    let marked_state = record s { positions = d; last_mtm_ts_utc = ts } in
    subst (λ x. (books x ≡ books s) × HoldsUnits x) (ok-injective (track_peak marked_state) t last)
      (track_peak-books marked_state ∙ same_books d cost, rw track_peak-positions units)
  where
    same_books :
        (d : Dict PositionView)
        → total cost_of d ≡ total cost_of s.positions
        → books (record s { positions = d; last_mtm_ts_utc = ts }) ≡ books s
    same_books d cost = unfold books in cc

on_approval-books : (s : LedgerState) (row : ApprovalRecorded) → SameBooks (on_approval s row) s
unfolding on_approval books
on_approval-books s row = elim (Bool-cases (str_eq row.id "")) [
  | inl e ↦ rw e (refl, refl)
  | inr e ↦ rw e (refl, refl)
]

SameBooks-Kept :
    (s t : LedgerState) → HoldsUnits s → SameBooks t s → (books t ≡ books s) × HoldsUnits t
SameBooks-Kept s t h (same, positions) = (same, subst (AllEntries HasUnits) (sym positions) h)

module _ (parse_prices : String → Prices) where
  handle-quiet :
      (s t : LedgerState) (b : Body) (ts cid : String)
      → IsQuiet b
      → HoldsUnits s
      → handle parse_prices s b ts cid ≡ ok t
      → (books t ≡ books s) × HoldsUnits t
  unfolding handle on_halt_set on_halt_cleared on_kill_set on_kill_cleared on_breaker_tripped
      on_breaker_reset books
  handle-quiet s t (fill_recorded row) ts cid q h e = absurd q
  handle-quiet s t (position_opened row) ts cid q h e = absurd q
  handle-quiet s t (position_closed row) ts cid q h e = absurd q
  handle-quiet s t (order_rejected row) ts cid q h e = absurd q
  handle-quiet s t (daily_rollover row) ts cid q h e = absurd q
  handle-quiet s t (mark_to_market row) ts cid q h e =
      on_mtm-books s t (parse_prices row.prices_json) ts h e
  handle-quiet s t (approval_recorded row) ts cid q h e =
      subst (λ x. (books x ≡ books s) × HoldsUnits x) (ok-injective _ t e)
        (SameBooks-Kept s (on_approval s row) h (on_approval-books s row))
  handle-quiet s t b ts cid q h e =
      subst (λ x. (books x ≡ books s) × HoldsUnits x) (ok-injective _ t e) (refl, h)

  pub reduce-quiet :
      (s t : LedgerState) (e : Event)
      → IsQuiet e.body
      → HoldsUnits s
      → reduce parse_prices s e ≡ ok t
      → (books t ≡ books s) × HoldsUnits t
  unfolding reduce
  reduce-quiet s t e q h r =
      let (u, first, last) =
        >>=-eq-ok (handle parse_prices s e.body e.ts_utc e.correlation_id) _ r in
      let (same, positions) = reduce-SameBooks parse_prices s t u e r first in
      let (kept, units) = handle-quiet s u e.body e.ts_utc e.correlation_id q h first in
      (same ∙ kept, subst (AllEntries HasUnits) (sym positions) units)

  pub reduce-rejection :
      (s t : LedgerState) (e : Event) (row : OrderRejected)
      → HoldsUnits s
      → e.body ≡ order_rejected row
      → reduce parse_prices s e ≡ ok t
      → (books t +ℤ row.fees_lamports ≡ books s) × HoldsUnits t
  unfolding on_rejected
  reduce-rejection s t e row h is step =
      let (same, positions) = reduce-rejected parse_prices s t e row is step in
      (rw same (on_rejected-books s row), subst (AllEntries HasUnits) (sym positions) h)

  pub reduce-refusal :
      (s t : LedgerState) (e : Event) (p : Placing) (detail unplaced : String) (r : Refusal)
      → HoldsUnits s
      → e.body ≡ order_rejected (refusal_row p detail unplaced r)
      → reduce parse_prices s e ≡ ok t
      → (books t +ℤ r.fees ≡ books s) × HoldsUnits t
  unfolding refusal_row
  reduce-refusal s t e p detail unplaced r h is step =
      reduce-rejection s t e (refusal_row p detail unplaced r) h is step
