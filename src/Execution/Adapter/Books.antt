-- ===== src/Execution/Adapter/Books.antt =====
-- The desk's books over the rows that an order settles with.
use pump_grok.Prelude.{◌&&◌, Bool, true, false, String, none, some, ◌≡◌, refl, ap, str_eq, arith}
use pump_grok.Prelude.Int.{ℤ, pos, ◌+ℤ◌, ◌-ℤ◌, ◌≤ℤ◌, ltb_ℤ, min_ℤ, int_laws, pos_part, neg_part}
use pump_grok.Prelude.Dict.{lookup, insert, total, total-insert, total-insert_absent, total-erase}
use pump_grok.Ledger.Events.{FillRecorded, PositionOpened, PositionClosed, OrderRejected}
use pump_grok.Ledger.State.{LedgerState, PositionView, track_peak}
use pump_grok.Ledger.Fill.{
  on_fill, filled, on_position_opened, on_position_closed, on_rejected, fill_position, bought, sold,
  booked, is_sale, fill_counters, add_realized,
}
use pump_grok.Ledger.Reducer.Frame.{track_peak-cash, track_peak-positions, track_peak-counters}

abbrev pub cost_of : PositionView → ℤ
cost_of p = p.cost_basis_lamports

-- The cost of what is held.
abbrev pub held_cost : LedgerState → ℤ
held_cost s = total cost_of s.positions

-- Cash and the cost of what is held, less the profit that the day has booked.
unfoldable pub books : LedgerState → ℤ
books s = s.cash_lamports +ℤ held_cost s -ℤ s.counters.realized_today_lamports

pub track_peak-books : (s : LedgerState) → books (track_peak s) ≡ books s
unfolding books
track_peak-books s = cc (track_peak-cash s, track_peak-positions s, track_peak-counters s)

fill_counters-realized :
    (row : FillRecorded) (s : LedgerState)
    → (fill_counters row s.counters).realized_today_lamports ≡ s.counters.realized_today_lamports
unfolding fill_counters
fill_counters-realized row s = ground arith

-- A fill on a mint that is not held moves cash only.
pub on_fill-books_absent :
    (s : LedgerState) (row : FillRecorded)
    → lookup row.mint s.positions ≡ none
    → (books (on_fill s row) ≡ books s +ℤ row.cash_delta_lamports)
      × ((on_fill s row).positions ≡ s.positions)
unfolding on_fill books filled
on_fill-books_absent s row e =
    rw (e, track_peak-cash, track_peak-positions, track_peak-counters, fill_counters-realized)
      (omega int_laws, refl)

-- A fill on a held mint.
pub on_fill-books_held :
    (s : LedgerState) (row : FillRecorded) (p : PositionView)
    → lookup row.mint s.positions ≡ some p
    → (books (on_fill s row) +ℤ p.cost_basis_lamports +ℤ booked row p
        ≡ books s +ℤ row.cash_delta_lamports +ℤ (fill_position row p).cost_basis_lamports)
      × ((on_fill s row).positions ≡ insert row.mint (fill_position row p) s.positions)
unfolding on_fill books filled add_realized
on_fill-books_held s row p e =
    let moved = total-insert cost_of row.mint (fill_position row p) p s.positions e in
    rw (e, track_peak-cash, track_peak-positions, track_peak-counters, fill_counters-realized)
      (omega (int_laws, ap pos_part moved, ap neg_part moved), refl)

pub on_position_opened-books :
    (s : LedgerState) (row : PositionOpened) (cid : String)
    → lookup row.mint s.positions ≡ none
    → str_eq row.mint "" ≡ false
    → books (on_position_opened s row cid) ≡ books s +ℤ row.cost_basis_lamports
unfolding on_position_opened books
on_position_opened-books s row cid e named =
    rw (named, track_peak-cash, track_peak-positions, track_peak-counters)
      (omega (
        int_laws,
        ap pos_part (total-insert_absent cost_of row.mint _ s.positions e),
        ap neg_part (total-insert_absent cost_of row.mint _ s.positions e),
      ))

pub on_position_closed-books :
    (s : LedgerState) (row : PositionClosed) (p : PositionView)
    → lookup row.mint s.positions ≡ some p
    → books (on_position_closed s row) +ℤ p.cost_basis_lamports +ℤ row.realized_pnl_lamports
      ≡ books s
unfolding on_position_closed books add_realized
on_position_closed-books s row p e =
    let moved = total-erase cost_of row.mint p s.positions e in
    rw (track_peak-cash, track_peak-positions, track_peak-counters)
      (omega (int_laws, ap pos_part moved, ap neg_part moved))

pub on_rejected-books :
    (s : LedgerState) (row : OrderRejected)
    → books (on_rejected s row) +ℤ row.fees_lamports ≡ books s
unfolding on_rejected books
on_rejected-books s row = omega int_laws

min-nonpos : (a : ℤ) → a ≤ℤ pos 0 → min_ℤ a (pos 0) ≡ a
unfolding min_ℤ
min-nonpos a h = ground arith

pub ltb-pos : (a : ℤ) → pos 1 ≤ℤ a → ltb_ℤ (pos 0) a ≡ true
ltb-pos a h = ground arith

-- The two fills that change a held position as one.
pub bought-cost :
    (row : FillRecorded) (p : PositionView)
    → str_eq row.side "buy" ≡ true
    → row.cash_delta_lamports ≤ℤ pos 0
    → ((fill_position row p).cost_basis_lamports ≡ p.cost_basis_lamports -ℤ row.cash_delta_lamports)
      × (booked row p ≡ pos 0)
      × ((fill_position row p).token_units ≡ p.token_units +ℤ row.filled_units)
unfolding fill_position bought booked min_ℤ
bought-cost row p side paid = rw (side, min-nonpos row.cash_delta_lamports paid) (refl, refl, refl)

pub sold-cost :
    (row : FillRecorded) (p : PositionView)
    → str_eq row.side "buy" ≡ false
    → pos 1 ≤ℤ row.filled_units
    → row.filled_units +ℤ pos 1 ≤ℤ p.token_units
    → ((fill_position row p).cost_basis_lamports +ℤ row.cash_delta_lamports
        ≡ p.cost_basis_lamports +ℤ booked row p)
      × ((fill_position row p).token_units ≡ p.token_units -ℤ row.filled_units)
unfolding fill_position sold booked is_sale
sold-cost row p side some_units rest =
    rw
      (
        side,
        ltb-pos p.token_units (omega (int_laws, rest, some_units)),
        ltb-pos row.filled_units some_units,
        ltb-pos (p.token_units -ℤ row.filled_units) (omega (int_laws, rest)),
      )
      (omega int_laws, refl)

pub and-false : (a : Bool) → a && false ≡ false
and-false true = refl
and-false false = refl

ltb-nonpos : (a : ℤ) → a ≤ℤ pos 0 → ltb_ℤ (pos 0) a ≡ false
ltb-nonpos a h = ground arith

-- The fill that empties a position books nothing: the row that closes it does.
pub booked_all :
    (row : FillRecorded) (p : PositionView)
    → str_eq row.side "buy" ≡ false
    → p.token_units ≤ℤ row.filled_units
    → booked row p ≡ pos 0
unfolding booked
booked_all row p side all =
    rw (side, ltb-nonpos (p.token_units -ℤ row.filled_units) (omega (int_laws, all)), and-false)
      refl
