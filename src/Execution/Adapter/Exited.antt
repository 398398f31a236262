-- ===== src/Execution/Adapter/Exited.antt =====
-- A settled exit keeps the books.
use pump_grok.Prelude.{
  true, false, String, Option, none, some, List, [], ◌∷◌, ◌≡◌, refl, inl, inr, Bool-cases,
  Option-cases, subst, sym, ap, ◌∙◌, eq_iff, arith,
}
use pump_grok.Prelude.Int.{ℤ, pos, ◌+ℤ◌, ◌≤ℤ◌, leb_ℤ, int_laws, pos_part, neg_part}
use pump_grok.Prelude.Dict.{
  Dict, AllEntries, lookup, insert, erase, insert-AllEntries, lookup-AllEntries, lookup-insert,
}
use pump_grok.Prelude.Decimal.{Decimal}
use pump_grok.Ledger.Events.{Event, Body, fill_recorded, position_closed}
use pump_grok.Ledger.State.{LedgerState, PositionView}
use pump_grok.Ledger.Mark.{Prices, ok}
use pump_grok.Ledger.Fill.{on_position_closed, fill_position}
use pump_grok.Ledger.Reducer.{fold}
use pump_grok.Ledger.Reducer.Frame.{track_peak-positions}
use pump_grok.Execution.Adapter.Model.{CurveSnapshot, Venue, Placing}
use pump_grok.Execution.Adapter.Confirm.{Found}
use pump_grok.Execution.Adapter.Sell.{
  SellPlan, SellFigures, sell_fill_row, position_closed_row, closing_rows, sell_rows, held_units,
  sell_figures, after_venue_fee,
}
use pump_grok.Execution.Adapter.Sold.{IsSold}
use pump_grok.Execution.Adapter.Books.{
  books, on_fill-books_held, on_position_closed-books, sold-cost, booked_all, and-false, ltb-pos,
}
use pump_grok.Execution.Adapter.Rows.{AreRows, reduce-fill, reduce-closed, fold-head, fold-end}
use pump_grok.Execution.Adapter.Settled.{HasUnits, HoldsUnits}

-- Erasing a mint leaves the entries that another value under it had beside it.
insert-erase-AllEntries :
    (P : String → PositionView → Type 0) (k : String) (q : PositionView) (d : Dict PositionView)
    → AllEntries P d
    → AllEntries P (erase k (insert k q d))
unfolding insert erase
insert-erase-AllEntries P k q [] h = ground (arith, eq_iff k k)
insert-erase-AllEntries P k q ((j, w) ∷ d) h =
    ground (arith, eq_iff j k, insert-erase-AllEntries P k q d h.1)

lookup_inserted :
    (k : String) (q : PositionView) (d : Dict PositionView) → lookup k (insert k q d) ≡ some q
lookup_inserted k q d = rw lookup-insert (ground (arith, eq_iff k k))

nothing_held : (n : ℤ) (o : Option PositionView) → o ≡ none → pos 1 ≤ℤ n → n ≤ℤ held_units o → ⊥
nothing_held n none e paid le = omega (arith, paid)
nothing_held n (some q) e paid le = cc

leb-true : (a b : ℤ) → a ≤ℤ b → leb_ℤ a b ≡ true
leb-true a b h = ground arith

leb-false : (a b : ℤ) → b +ℤ pos 1 ≤ℤ a → leb_ℤ a b ≡ false
unfolding ◌+ℤ◌
leb-false a b h = ground arith

leb-rest : (a b : ℤ) → leb_ℤ a b ≡ false → b +ℤ pos 1 ≤ℤ a
unfolding ◌+ℤ◌
leb-rest a b h = ground arith

module _ (parse_prices : String → Prices) (v : Venue) (p : Placing)
    (since : String → Option ℤ) where
  closed-HoldsUnits :
      (s u : LedgerState) (q : PositionView) (f : SellFigures) (held : PositionView)
      → HoldsUnits s
      → u.positions ≡ insert p.request.mint q s.positions
      → HoldsUnits (on_position_closed u (position_closed_row v p since held f))
  unfolding on_position_closed position_closed_row
  closed-HoldsUnits s u q f held holds same =
      rw (track_peak-positions, same)
        (insert-erase-AllEntries HasUnits p.request.mint q s.positions holds)

  -- An exit of some of the units.
  sell_part-books :
      (plan : SellPlan) (curve0 curve1 : CurveSnapshot) (latency : Decimal) (f : SellFigures)
      (s t : LedgerState) (es : List Event) (held : PositionView)
      → HoldsUnits s
      → pos 1 ≤ℤ plan.filled_units
      → plan.filled_units +ℤ pos 1 ≤ℤ held.token_units
      → lookup p.request.mint s.positions ≡ some held
      → AreRows es (fill_recorded (sell_fill_row p plan curve0 curve1 latency f) ∷ [])
      → fold parse_prices s es ≡ ok t
      → (books t ≡ books s) × HoldsUnits t
  unfolding sell_fill_row
  sell_part-books plan curve0 curve1 latency f s t es held holds units rest found rows h =
      let row = sell_fill_row p plan curve0 curve1 latency f in
      let (e1, es1, u, is1, first, rows1, h1) = fold-head parse_prices s t es _ _ rows h in
      let filled = reduce-fill parse_prices s u e1 row is1 first in
      let (moved, placed) = on_fill-books_held s row held found in
      let (cost, left) = sold-cost row held refl units rest in
      let kept : books u ≡ books s = rw filled.0 (
        omega
          (int_laws, ap pos_part moved, ap neg_part moved, ap pos_part cost, ap neg_part cost)) in
      let some_left : pos 1 ≤ℤ (fill_position row held).token_units =
        rw left (omega (int_laws, rest)) in
      subst (λ x. (books x ≡ books s) × HoldsUnits x) (fold-end parse_prices u t es1 rows1 h1)
        (
          kept,
          subst (AllEntries HasUnits) (sym (filled.1 ∙ placed)) (
              insert-AllEntries HasUnits p.request.mint (fill_position row held) s.positions
                some_left holds),
        )

  -- An exit of every unit: its fill, and the row that closes the position and books the profit.
  sell_all-books :
      (plan : SellPlan) (curve0 curve1 : CurveSnapshot) (latency : Decimal) (f : SellFigures)
      (s t : LedgerState) (es : List Event) (held : PositionView)
      → HoldsUnits s
      → held.token_units ≤ℤ plan.filled_units
      → lookup p.request.mint s.positions ≡ some held
      → AreRows es (
          fill_recorded (sell_fill_row p plan curve0 curve1 latency f)
          ∷ position_closed (position_closed_row v p since held f)
          ∷ [])
      → fold parse_prices s es ≡ ok t
      → (books t ≡ books s) × HoldsUnits t
  unfolding sell_fill_row position_closed_row
  sell_all-books plan curve0 curve1 latency f s t es held holds all found rows h =
      let row = sell_fill_row p plan curve0 curve1 latency f in
      let closing = position_closed_row v p since held f in
      let (e1, es1, u, is1, first, rows1, h1) = fold-head parse_prices s t es _ _ rows h in
      let (e2, es2, w, is2, second, rows2, h2) = fold-head parse_prices u t es1 _ _ rows1 h1 in
      let filled = reduce-fill parse_prices s u e1 row is1 first in
      let closed = reduce-closed parse_prices u w e2 closing is2 second in
      let (moved, placed) = on_fill-books_held s row held found in
      let same = filled.1 ∙ placed in
      let unbooked = booked_all row held refl all in
      let at_mint : lookup p.request.mint u.positions ≡ some (fill_position row held) =
        rw same (lookup_inserted p.request.mint (fill_position row held) s.positions) in
      let erased = on_position_closed-books u closing (fill_position row held) at_mint in
      let kept : books w ≡ books s = rw closed.0 (
        omega (
          int_laws,
          ap pos_part moved,
          ap neg_part moved,
          ap pos_part unbooked,
          ap neg_part unbooked,
          ap pos_part erased,
          ap neg_part erased,
          ap pos_part filled.0,
          ap neg_part filled.0,
        )) in
      subst (λ x. (books x ≡ books s) × HoldsUnits x) (fold-end parse_prices w t es2 rows2 h2)
        (
          kept,
          subst (AllEntries HasUnits) (sym closed.1)
              (closed-HoldsUnits s u (fill_position row held) f held holds same),
        )

  -- The rows of an exit by whether it empties the holding.
  sell_rows-part :
      (plan : SellPlan) (curve0 curve1 : CurveSnapshot) (latency : Decimal) (f : SellFigures)
      (held : PositionView)
      → plan.filled_units +ℤ pos 1 ≤ℤ held.token_units
      → sell_rows v p since plan curve0 curve1 latency f (some held)
        ≡ fill_recorded (sell_fill_row p plan curve0 curve1 latency f) ∷ []
  unfolding sell_rows closing_rows
  sell_rows-part plan curve0 curve1 latency f held rest =
      rw (leb-false held.token_units plan.filled_units rest, and-false) refl

  sell_rows-all :
      (plan : SellPlan) (curve0 curve1 : CurveSnapshot) (latency : Decimal) (f : SellFigures)
      (held : PositionView)
      → pos 1 ≤ℤ held.token_units
      → held.token_units ≤ℤ plan.filled_units
      → sell_rows v p since plan curve0 curve1 latency f (some held)
        ≡ fill_recorded (sell_fill_row p plan curve0 curve1 latency f)
          ∷ position_closed (position_closed_row v p since held f)
          ∷ []
  unfolding sell_rows closing_rows
  sell_rows-all plan curve0 curve1 latency f held units all =
      rw (ltb-pos held.token_units units, leb-true held.token_units plan.filled_units all) refl

  -- A settled exit keeps cash plus the cost of what is held, less the profit booked: what comes in
  -- above the cost of the units sold is the profit that the day books, whether the exit closes the
  -- position or leaves a part. Every position goes on holding units.
  pub IsSold-books :
      (curve0 : CurveSnapshot) (found : Found) (latency : Decimal) (s t : LedgerState)
      (rows : List Body) (es : List Event) (plan : SellPlan) (curve1 : CurveSnapshot) (gross1 : ℤ)
      → HoldsUnits s
      → IsSold v p since curve0 found latency s rows plan curve1 gross1
      → AreRows es rows
      → fold parse_prices s es ≡ ok t
      → (books t ≡ books s) × HoldsUnits t
  IsSold-books curve0 found latency s t rows es plan curve1 gross1 holds k are h =
      let f = sell_figures v p plan gross1 (after_venue_fee v gross1) in
      let rows_eq = subst (AreRows es) k.rows_eq are in
      elim (Option-cases (lookup p.request.mint s.positions)) [
        | inl absent ↦
            let none_held = k.filled-le_held in
            absurd (nothing_held plan.filled_units _ absent k.filled none_held)
        | inr (held, e) ↦
            let units = lookup-AllEntries HasUnits p.request.mint held s.positions holds e in
            elim (Bool-cases (leb_ℤ held.token_units plan.filled_units)) [
              | inl all ↦
                  let closes : held.token_units ≤ℤ plan.filled_units = ground arith in
                  sell_all-books plan curve0 curve1 latency f s t es held holds closes e
                    (rw (e, sell_rows-all plan curve0 curve1 latency f held units closes) at
                      rows_eq)
                    h
              | inr part ↦
                  let rest = leb-rest held.token_units plan.filled_units part in
                  sell_part-books plan curve0 curve1 latency f s t es held holds k.filled rest e
                    (rw (e, sell_rows-part plan curve0 curve1 latency f held rest) at rows_eq) h
            ]
      ]
