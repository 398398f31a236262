-- ===== src/Execution/Adapter/Day.antt =====
-- A trading day: the orders that settle or are refused on the paper adapter, with other rows of the
-- ledger between them.
use pump_grok.Prelude.{false, String, Option, List, ◌≡◌, ap, str_eq}
use pump_grok.Prelude.Int.{ℤ, pos, ◌+ℤ◌, int_laws, pos_part, neg_part}
use pump_grok.Prelude.Dict.{total}
use pump_grok.Prelude.Decimal.{Decimal}
use pump_grok.Ledger.Events.{Event, Body, OrderRejected, order_rejected}
use pump_grok.Ledger.State.{LedgerState, initial_state}
use pump_grok.Ledger.Mark.{Prices, ok}
use pump_grok.Ledger.Reducer.{reduce, fold}
use pump_grok.Execution.Fees.{IsValid}
use pump_grok.Execution.Adapter.Model.{
  CurveSnapshot, Venue, Placing, Refusal, done, refused, refusal_row,
}
use pump_grok.Execution.Adapter.Confirm.{Found}
use pump_grok.Execution.Adapter.Buy.{place_buy}
use pump_grok.Execution.Adapter.Bought.{place_buy-IsBought}
use pump_grok.Execution.Adapter.Sell.{place_sell}
use pump_grok.Execution.Adapter.Sold.{place_sell-IsSold}
use pump_grok.Execution.Adapter.Books.{held_cost, books}
use pump_grok.Execution.Adapter.Rows.{AreRows}
use pump_grok.Execution.Adapter.Settled.{HoldsUnits, IsBought-books}
use pump_grok.Execution.Adapter.Exited.{IsSold-books}
use pump_grok.Execution.Adapter.Quiet.{IsQuiet, reduce-quiet, reduce-refusal, reduce-rejection}

-- One thing that happens on the desk, and the fees that it costs beside the fills.
pub data Trade (parse_prices : String → Prices) (v : Venue) (since : String → Option ℤ)
    : LedgerState → LedgerState → ℤ → Type 0 where
  buy_settled :
      (p : Placing) (size : ℤ) (curve0 : CurveSnapshot) (found : Found) (latency : Decimal)
      (now_ts : String) {s t : LedgerState} (rows : List Body) (es : List Event)
      → str_eq p.request.mint "" ≡ false
      → place_buy v p size curve0 found latency now_ts s ≡ done rows
      → AreRows es rows
      → fold parse_prices s es ≡ ok t
      → Trade parse_prices v since s t (pos 0)
  sell_settled :
      (p : Placing) (curve0 : CurveSnapshot) (accepted : LedgerState) (found : Found)
      (latency : Decimal) {s t : LedgerState} (rows : List Body) (es : List Event)
      → place_sell v p since curve0 accepted found latency s ≡ done rows
      → AreRows es rows
      → fold parse_prices s es ≡ ok t
      → Trade parse_prices v since s t (pos 0)
  buy_refused :
      (p : Placing) (size : ℤ) (curve0 : CurveSnapshot) (found : Found) (latency : Decimal)
      (now_ts : String) {s t : LedgerState} (r : Refusal) (detail unplaced : String) (e : Event)
      → place_buy v p size curve0 found latency now_ts s ≡ refused r
      → e.body ≡ order_rejected (refusal_row p detail unplaced r)
      → reduce parse_prices s e ≡ ok t
      → Trade parse_prices v since s t r.fees
  sell_refused :
      (p : Placing) (curve0 : CurveSnapshot) (accepted : LedgerState) (found : Found)
      (latency : Decimal) {s t : LedgerState} (r : Refusal) (detail unplaced : String) (e : Event)
      → place_sell v p since curve0 accepted found latency s ≡ refused r
      → e.body ≡ order_rejected (refusal_row p detail unplaced r)
      → reduce parse_prices s e ≡ ok t
      → Trade parse_prices v since s t r.fees
  rejected :
      {s t : LedgerState} (row : OrderRejected) (e : Event)
      → e.body ≡ order_rejected row
      → reduce parse_prices s e ≡ ok t
      → Trade parse_prices v since s t row.fees_lamports
  quiet :
      {s t : LedgerState} (e : Event)
      → IsQuiet e.body
      → reduce parse_prices s e ≡ ok t
      → Trade parse_prices v since s t (pos 0)

-- The trades since a state, oldest first, with their fees added up.
pub data Day (parse_prices : String → Prices) (v : Venue) (since : String → Option ℤ)
    (s : LedgerState) : LedgerState → ℤ → Type 0 where
  start : Day parse_prices v since s s (pos 0)
  next :
      {t u : LedgerState} {paid fees : ℤ}
      → Day parse_prices v since s t paid
      → Trade parse_prices v since t u fees
      → Day parse_prices v since s u (paid +ℤ fees)

module _ (parse_prices : String → Prices) (v : Venue) (since : String → Option ℤ) where
  Trade-books :
      {s t : LedgerState} {fees : ℤ}
      → IsValid v.fees
      → HoldsUnits s
      → Trade parse_prices v since s t fees
      → (books t +ℤ fees ≡ books s) × HoldsUnits t
  Trade-books {s} {t} valid h
        (buy_settled p size curve0 found latency now_ts rows es named placed are f) =
      let (c, bought) = place_buy-IsBought v p size curve0 found latency now_ts s rows placed in
      let (kept, units) =
        IsBought-books parse_prices v p size curve0 found now_ts s t rows es c valid named h bought
          are f in
      (rw kept (omega int_laws), units)
  Trade-books {s} {t} valid h (sell_settled p curve0 accepted found latency rows es placed are f) =
      let (plan, curve1, gross1, k) =
        place_sell-IsSold v p since curve0 accepted found latency s rows placed in
      let (kept, units) =
        IsSold-books parse_prices v p since curve0 found latency s t rows es plan curve1 gross1 h k
          are f in
      (rw kept (omega int_laws), units)
  Trade-books {s} {t} valid h
        (buy_refused p size curve0 found latency now_ts r detail unplaced e placed is f) =
      reduce-refusal parse_prices s t e p detail unplaced r h is f
  Trade-books {s} {t} valid h
        (sell_refused p curve0 accepted found latency r detail unplaced e placed is f) =
      reduce-refusal parse_prices s t e p detail unplaced r h is f
  Trade-books {s} {t} valid h (rejected row e is f) = reduce-rejection parse_prices s t e row h is f
  Trade-books {s} {t} valid h (quiet e q f) =
      let (kept, units) = reduce-quiet parse_prices s t e q h f in (rw kept (omega int_laws), units)

  Day-books :
      {s t : LedgerState} {fees : ℤ}
      → IsValid v.fees
      → HoldsUnits s
      → Day parse_prices v since s t fees
      → (books t +ℤ fees ≡ books s) × HoldsUnits t
  Day-books valid h start = (omega int_laws, h)
  Day-books {s} valid h (next {t} {u} {paid} {fees} d trade) =
      let (before, units) = Day-books valid h d in
      let (after, units') = Trade-books valid units trade in
      (
        omega (
          int_laws,
          ap pos_part before,
          ap neg_part before,
          ap pos_part after,
          ap neg_part after,
        ),
        units',
      )

  -- From genesis, whatever orders settle by `place_buy` and `place_sell`, whatever orders are refused
  -- or rejected by these or by anything before or after them, and whatever other rows stand between
  -- them but a new day's, under a valid fee model: the cash, with the cost of what is held and the
  -- fees of the rejections, is the initial equity with the profit booked. Every position that is
  -- held holds units. Fills and positions opened or closed in another way are left out: the forced
  -- closes of marks.py are not among the rows.
  pub Day-genesis_books :
      (source day : String) (initial fees : ℤ) (t : LedgerState)
      → IsValid v.fees
      → Day parse_prices v since (initial_state source initial day) t fees
      → (t.cash_lamports +ℤ held_cost t +ℤ fees ≡ initial +ℤ t.counters.realized_today_lamports)
        × HoldsUnits t
  unfolding books initial_state total
  Day-genesis_books source day initial fees t valid d =
      let (kept, units) = Day-books valid tt d in
      (omega (int_laws, ap pos_part kept, ap neg_part kept), units)
