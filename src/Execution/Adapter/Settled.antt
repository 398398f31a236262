-- ===== src/Execution/Adapter/Settled.antt =====
-- A settled order keeps the books.
use pump_grok.Prelude.{
  true, false, String, none, some, List, ◌≡◌, refl, inl, inr, Bool-cases, Option-cases, subst, sym,
  ap, ◌∙◌, str_eq, arith,
}
use pump_grok.Prelude.Int.{ℤ, pos, ◌+ℤ◌, ◌≤ℤ◌, int_laws, pos_part, neg_part, share-rest_pos}
use pump_grok.Prelude.Dict.{AllEntries, lookup, insert-AllEntries, lookup-AllEntries}
use pump_grok.Ledger.Events.{Event, Body}
use pump_grok.Ledger.State.{LedgerState, PositionView}
use pump_grok.Ledger.Mark.{Prices, ok}
use pump_grok.Ledger.Fill.{on_position_opened, fill_position}
use pump_grok.Ledger.Reducer.{fold}
use pump_grok.Ledger.Reducer.Frame.{track_peak-positions}
use pump_grok.Execution.Curve.Bounds.{buy_out-IsOut}
use pump_grok.Execution.Fees.{IsValid, venue_fee, network_cost, network_cost_nonneg}
use pump_grok.Execution.Adapter.Model.{CurveSnapshot, Venue, Placing}
use pump_grok.Execution.Adapter.Confirm.{Found}
use pump_grok.Execution.Adapter.Buy.{
  BuyConfirmed, buy_fill_row, buy_position_row, buy_fill_rows, is_held,
}
use pump_grok.Execution.Adapter.Bought.{IsConfirmed, IsBought}
use pump_grok.Execution.Adapter.Books.{
  books, on_fill-books_absent, on_fill-books_held, on_position_opened-books, bought-cost,
}
use pump_grok.Execution.Adapter.Rows.{AreRows, reduce-fill, reduce-opened, fold-head, fold-end}

-- A position holds at least one unit.
abbrev pub HasUnits : String → PositionView → Type 0
HasUnits k p = pos 1 ≤ℤ p.token_units

abbrev pub HoldsUnits : LedgerState → Type 0
HoldsUnits s = AllEntries HasUnits s.positions

-- A fill that reached the curve paid something.
filled_pos :
    (v : Venue) (p : Placing) (size : ℤ) (curve0 : CurveSnapshot) (found : Found) (c : BuyConfirmed)
    → IsValid v.fees
    → IsConfirmed v p size curve0 found c
    → pos 1 ≤ℤ c.filled
unfolding venue_fee
filled_pos v p size curve0 found c valid k =
    let paid = (buy_out-IsOut c.curve1.s_lamports c.curve1.t_units c.x_net c.out1 k.priced).paid in
    share-rest_pos c.filled v.fees.venue_fee_bps valid.bps_nonneg valid.bps_whole
      (subst (λ n. pos 1 ≤ℤ n) k.net paid)

opened-positions :
    (s : LedgerState) (v : Venue) (p : Placing) (c : BuyConfirmed) (now_ts cid : String)
    → HoldsUnits s
    → pos 1 ≤ℤ c.out1
    → HoldsUnits (on_position_opened s (buy_position_row v p c now_ts) cid)
unfolding on_position_opened buy_position_row
opened-positions s v p c now_ts cid h units = elim (Bool-cases (str_eq p.request.mint "")) [
  | inl e ↦ rw e h
  | inr e ↦
      rw (e, track_peak-positions) (insert-AllEntries HasUnits p.request.mint _ s.positions units h)
]

module _ (parse_prices : String → Prices) where
  -- A first buy of a mint: its fill, and the row that opens its position at what it cost.
  buy_new-books :
      (v : Venue) (p : Placing) (curve0 : CurveSnapshot) (c : BuyConfirmed) (now_ts : String)
      (s t : LedgerState) (es : List Event)
      → str_eq p.request.mint "" ≡ false
      → HoldsUnits s
      → pos 1 ≤ℤ c.out1
      → lookup p.request.mint s.positions ≡ none
      → AreRows es (buy_fill_rows v p curve0 c now_ts false)
      → fold parse_prices s es ≡ ok t
      → (books t ≡ books s) × HoldsUnits t
  unfolding buy_fill_rows buy_fill_row buy_position_row
  buy_new-books v p curve0 c now_ts s t es named holds units absent rows h =
      let (e1, es1, u, is1, first, rows1, h1) = fold-head parse_prices s t es _ _ rows h in
      let (e2, es2, w, is2, second, rows2, h2) = fold-head parse_prices u t es1 _ _ rows1 h1 in
      let filled = reduce-fill parse_prices s u e1 (buy_fill_row v p curve0 c) is1 first in
      let opened = reduce-opened parse_prices u w e2 (buy_position_row v p c now_ts) is2 second in
      let (paid, kept) = on_fill-books_absent s (buy_fill_row v p curve0 c) absent in
      let same = filled.1 ∙ kept in
      let gone : lookup p.request.mint u.positions ≡ none = rw same absent in
      let cost =
        on_position_opened-books u (buy_position_row v p c now_ts) e2.correlation_id gone named in
      let whole : books w ≡ books s = rw (opened.0, cost, filled.0, paid) (omega int_laws) in
      subst (λ x. (books x ≡ books s) × HoldsUnits x) (fold-end parse_prices w t es2 rows2 h2)
        (
          whole,
          subst (AllEntries HasUnits) (sym opened.1) (
              opened-positions u v p c now_ts e2.correlation_id
                (subst (AllEntries HasUnits) (sym same) holds) units),
        )

  -- A buy of a mint that is held: its cost goes to the position.
  buy_more-books :
      (v : Venue) (p : Placing) (curve0 : CurveSnapshot) (c : BuyConfirmed) (now_ts : String)
      (s t : LedgerState) (es : List Event) (held : PositionView)
      → HoldsUnits s
      → pos 1 ≤ℤ c.out1
      → pos 0 ≤ℤ c.filled +ℤ network_cost v.fees
      → lookup p.request.mint s.positions ≡ some held
      → AreRows es (buy_fill_rows v p curve0 c now_ts true)
      → fold parse_prices s es ≡ ok t
      → (books t ≡ books s) × HoldsUnits t
  unfolding buy_fill_rows buy_fill_row
  buy_more-books v p curve0 c now_ts s t es held holds units paid found rows h =
      let row = buy_fill_row v p curve0 c in
      let (e1, es1, u, is1, first, rows1, h1) = fold-head parse_prices s t es _ _ rows h in
      let filled = reduce-fill parse_prices s u e1 row is1 first in
      let (moved, placed) = on_fill-books_held s row held found in
      let (cost, unbooked, grown) = bought-cost row held refl (omega (int_laws, paid)) in
      let kept : books u ≡ books s = rw filled.0 (
        omega (
          int_laws,
          ap pos_part moved,
          ap neg_part moved,
          ap pos_part cost,
          ap neg_part cost,
          ap pos_part unbooked,
          ap neg_part unbooked,
        )) in
      let more : pos 1 ≤ℤ (fill_position row held).token_units = rw grown (
        omega (
          int_laws,
          units,
          lookup-AllEntries HasUnits p.request.mint held s.positions holds found,
        )) in
      subst (λ x. (books x ≡ books s) × HoldsUnits x) (fold-end parse_prices u t es1 rows1 h1)
        (
          kept,
          subst (AllEntries HasUnits) (sym (filled.1 ∙ placed)) (
              insert-AllEntries HasUnits p.request.mint (fill_position row held) s.positions more
                holds),
        )

  is_held-units :
      (k : String) (s : LedgerState) (held : PositionView)
      → HoldsUnits s
      → lookup k s.positions ≡ some held
      → is_held (lookup k s.positions) ≡ true
  is_held-units k s held holds found =
      let units = lookup-AllEntries HasUnits k held s.positions holds found in
      rw found (ground arith)

  -- A settled buy of a named mint, under a valid fee model, keeps cash plus the cost of what is
  -- held, less the profit booked: what leaves the cash, fees and network cost included, is what the
  -- holding has cost. Every position goes on holding units.
  pub IsBought-books :
      (v : Venue) (p : Placing) (size : ℤ) (curve0 : CurveSnapshot) (found : Found)
      (now_ts : String) (s t : LedgerState) (rows : List Body) (es : List Event) (c : BuyConfirmed)
      → IsValid v.fees
      → str_eq p.request.mint "" ≡ false
      → HoldsUnits s
      → IsBought v p size curve0 found now_ts s rows c
      → AreRows es rows
      → fold parse_prices s es ≡ ok t
      → (books t ≡ books s) × HoldsUnits t
  IsBought-books v p size curve0 found now_ts s t rows es c valid named holds k are h =
      let rows_eq = subst (AreRows es) k.rows_eq are in
      elim (Option-cases (lookup p.request.mint s.positions)) [
        | inl absent ↦
            buy_new-books v p curve0 c now_ts s t es named holds k.bought absent
              (rw absent at rows_eq) h
        | inr (held, e) ↦
            let paid = filled_pos v p size curve0 found c valid k.confirmed in
            buy_more-books v p curve0 c now_ts s t es held holds k.bought
              (omega (int_laws, paid, network_cost_nonneg v.fees valid)) e
              (rw (is_held-units p.request.mint s held holds e) at rows_eq) h
      ]
