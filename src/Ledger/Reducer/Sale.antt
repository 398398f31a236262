-- ===== src/Ledger/Reducer/Sale.antt =====
-- A sale on an open position: its units and cost basis, and the equity of the desk.
use pump_grok.Prelude.{false, ◌≡◌, refl, ap, some, arith, inl, inr, Bool-cases, str_eq}
use pump_grok.Prelude.Int.{
  ℤ, pos, ◌+ℤ◌, ◌-ℤ◌, ◌≤ℤ◌, ltb_ℤ, min_ℤ, max_ℤ, int_laws, floor_div-share_bounds, floor_div-zero,
  floor_div-share_whole, min_ℤ-le_left, min_ℤ-le_right, max_ℤ-le, pos_part, neg_part,
}
use pump_grok.Prelude.Dict.{lookup, total-insert}
use pump_grok.Ledger.Events.{FillRecorded}
use pump_grok.Ledger.State.{LedgerState, PositionView, equity_lamports, open_value}
use pump_grok.Ledger.Fill.{
  fill_position, sold, is_sale, received, reduction, remaining_share, filled, on_fill,
}
use pump_grok.Ledger.Reducer.Frame.{track_peak-equity}

-- A sell fill of a positive number of units.
abbrev pub IsSell : FillRecorded → Type 0
IsSell row = (str_eq row.side "buy" ≡ false) × (pos 1 ≤ℤ row.filled_units)

fill_position-sold :
    (row : FillRecorded) (p : PositionView)
    → IsSell row
    → pos 1 ≤ℤ p.token_units
    → fill_position row p ≡ sold row p
unfolding fill_position is_sale
fill_position-sold row p (side, units) held = ground arith

-- An open position is worth its mark once it has one.
open_value_marked :
    (p : PositionView)
    → str_eq p.last_mtm_ts_utc "" ≡ false
    → pos 1 ≤ℤ p.token_units
    → open_value p ≡ p.last_mtm_lamports
unfolding open_value
open_value_marked p m h = ground arith

-- A sale does not bring in more than the mark, so its mark falls by what came in at least.
sold-open_value :
    (row : FillRecorded) (p : PositionView)
    → str_eq p.last_mtm_ts_utc "" ≡ false
    → received row ≤ℤ p.last_mtm_lamports
    → open_value (sold row p) ≤ℤ p.last_mtm_lamports -ℤ received row
unfolding sold open_value
sold-open_value row p m h =
    let room = p.last_mtm_lamports -ℤ received row in
    let cap = max_ℤ room (pos 0) in
    let share = remaining_share p.last_mtm_lamports row p in
    let kept : cap ≤ℤ room = max_ℤ-le room (pos 0) room (omega arith) (omega int_laws) in
    let le : min_ℤ share cap ≤ℤ room = omega (arith, min_ℤ-le_right share cap, kept) in
    elim (Bool-cases (ltb_ℤ (pos 0) (p.token_units -ℤ row.filled_units))) [
      | inl e ↦ rw (e, m) le
      | inr e ↦ rw e (omega int_laws)
    ]

-- The equity after a sell fill, before the peak is tracked.
filled-equity :
    (s : LedgerState) (row : FillRecorded) (p : PositionView)
    → lookup row.mint s.positions ≡ some p
    → equity_lamports (filled s row (some p)) +ℤ open_value p
      ≡ equity_lamports s +ℤ row.cash_delta_lamports +ℤ open_value (fill_position row p)
unfolding filled equity_lamports
filled-equity s row p found =
    let moved = total-insert open_value row.mint (fill_position row p) p s.positions found in
    omega (int_laws, ap pos_part moved, ap neg_part moved)

share-none : (a : ℤ) → ltb_ℤ (pos 0) a ≡ false → a ≤ℤ pos 0
share-none a e = ground arith

-- What a sale leaves is worth at most its share of the mark.
sold-share :
    (row : FillRecorded) (p : PositionView)
    → str_eq p.last_mtm_ts_utc "" ≡ false
    → pos 1 ≤ℤ p.token_units
    → row.filled_units ≤ℤ p.token_units
    → open_value (sold row p) ≤ℤ remaining_share p.last_mtm_lamports row p
unfolding sold open_value remaining_share
sold-share row p m held le =
    let share = remaining_share p.last_mtm_lamports row p in
    let cap = max_ℤ (p.last_mtm_lamports -ℤ received row) (pos 0) in
    elim (Bool-cases (ltb_ℤ (pos 0) (p.token_units -ℤ row.filled_units))) [
      | inl e ↦ rw (e, m) (min_ℤ-le_left share cap)
      | inr e ↦
          let none_left : p.token_units -ℤ row.filled_units ≡ pos 0 =
            omega (int_laws, share-none (p.token_units -ℤ row.filled_units) e) in
          rw (e, none_left) (floor_div-zero p.last_mtm_lamports p.token_units held)
    ]

-- A sell fill of at most the units held, on a marked open position, for proceeds before network cost
-- of at most its mark, lowers the equity by at least the network cost: the sale alone never lifts
-- equity. It also lowers it by at least the network cost with all that the proceeds miss of the mark
-- of the units sold, so that a fill below their mark shows as a loss at once.
pub on_fill-equity_drop :
    (s : LedgerState) (row : FillRecorded) (p : PositionView)
    → lookup row.mint s.positions ≡ some p
    → IsSell row
    → pos 1 ≤ℤ p.token_units
    → row.filled_units ≤ℤ p.token_units
    → str_eq p.last_mtm_ts_utc "" ≡ false
    → received row ≤ℤ p.last_mtm_lamports
    → let share = remaining_share p.last_mtm_lamports row p in
      (equity_lamports (on_fill s row) +ℤ row.network_cost_lamports ≤ℤ equity_lamports s)
      × (equity_lamports (on_fill s row)
            +ℤ row.network_cost_lamports
            +ℤ (p.last_mtm_lamports -ℤ share)
          ≤ℤ equity_lamports s +ℤ received row)
unfolding on_fill received
on_fill-equity_drop s row p found sell held le m room =
    let before = open_value_marked p m held in
    let after = sold-open_value row p m room in
    let whole = filled-equity s row p found in
    let same = fill_position-sold row p sell held in
    let kept = sold-share row p m held le in
    rw (found, track_peak-equity)
      (
        omega (
          int_laws,
          ap pos_part whole,
          ap neg_part whole,
          ap (λ x. pos_part (open_value x)) same,
          ap (λ x. neg_part (open_value x)) same,
          after,
          ap pos_part before,
          ap neg_part before,
        ),
        omega (
          int_laws,
          ap pos_part whole,
          ap neg_part whole,
          ap (λ x. pos_part (open_value x)) same,
          ap (λ x. neg_part (open_value x)) same,
          kept,
          ap pos_part before,
          ap neg_part before,
        ),
      )

-- A sell fill of at most the units held, on a position with a non-negative cost basis, takes its
-- units out and a part of the cost basis, which stays between zero and what it was; a fill of
-- every unit leaves no unit and no cost basis.
pub fill_position-sale :
    (row : FillRecorded) (p : PositionView)
    → IsSell row
    → row.filled_units ≤ℤ p.token_units
    → pos 0 ≤ℤ p.cost_basis_lamports
    → let q = fill_position row p in
      (q.token_units ≡ p.token_units -ℤ row.filled_units)
      × (pos 0 ≤ℤ q.cost_basis_lamports)
      × (q.cost_basis_lamports ≤ℤ p.cost_basis_lamports)
      × (row.filled_units ≡ p.token_units
          → (q.token_units ≡ pos 0) × (q.cost_basis_lamports ≡ pos 0))
unfolding sold reduction
fill_position-sale row p sell le cost =
    let held : pos 1 ≤ℤ p.token_units = omega (arith, sell.1) in
    let share =
      floor_div-share_bounds p.cost_basis_lamports row.filled_units p.token_units cost
        (omega (arith, sell.1)) held le in
    rw (fill_position-sold row p sell held) (
      refl,
      omega (int_laws, share),
      omega (int_laws, share),
      λ all. (
        omega (int_laws, ap pos_part all, ap neg_part all),
        rw (all, floor_div-share_whole _ _ cost held) (omega int_laws),
      ),
    )
