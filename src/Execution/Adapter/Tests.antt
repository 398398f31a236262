-- ===== src/Execution/Adapter/Tests.antt =====
-- The paper adapter on a launch curve: a buy of one SOL, the exit of all of it, and a refusal.
use pump_grok.Prelude.{
  true, false, String, Option, none, some, List, [], ◌∷◌, ◌≡◌, refl, str_eq, arith, inl,
}
use pump_grok.Prelude.Int.{ℤ, pos, ◌+ℤ◌, ◌-ℤ◌, ◌*ℤ◌, floor_div}
use pump_grok.Prelude.Dict.{lookup, insert, total}
use pump_grok.Ledger.Mark.{Prices, Result, ok, corrupt}
use pump_grok.Risk.Engine.Limits.{fraction_of}
use pump_grok.Execution.Curve.{buy_out, sell_out}
use pump_grok.Prelude.Decimal.{Decimal, zero_decimal}
use pump_grok.Ledger.Events.{Event, Body, paper, order_rejected}
use pump_grok.Ledger.State.{LedgerState, initial_state, track_peak, equity_lamports, open_value}
use pump_grok.Ledger.Fill.{on_fill, on_position_opened}
use pump_grok.Ledger.Reducer.{fold, reduce, handle, stamp}
use pump_grok.Execution.Adapter.Sell.{place_sell, SellPlan}
use pump_grok.Core.Order.{OrderRequest, Side, buy, sell}
use pump_grok.Execution.Fees.{default_fees, IsValid, venue_fee, network_cost, priority_fee}
use pump_grok.Execution.Adapter.Model.{
  CurveSnapshot, Venue, Placing, Refusal, Staged, done, refused, refusal_row, at_accepted,
}
use pump_grok.Execution.Adapter.Confirm.{Found}
use pump_grok.Execution.Adapter.Buy.{BuyConfirmed, place_buy, buy_fill_row, buy_position_row}
use pump_grok.Execution.Adapter.Bought.{IsBought, place_buy-IsBought}
use pump_grok.Execution.Adapter.Sold.{IsSold, place_sell-IsSold}
use pump_grok.Execution.Adapter.Refuses.{IsRefusal}
use pump_grok.Execution.Adapter.Refused.{place-IsRefusal}
use pump_grok.Execution.Adapter.Books.{held_cost}
use pump_grok.Execution.Adapter.Rows.{AreRows}
use pump_grok.Execution.Adapter.Settled.{HoldsUnits}
use pump_grok.Execution.Adapter.Day.{
  Day, start, next, buy_settled, sell_settled, buy_refused, Day-genesis_books,
}

abbrev launch : CurveSnapshot
launch = record {
  s_lamports = pos 30_000_000_000;
  t_units = pos 1_073_000_000_000_000;
  complete = false;
  price_allowed = true;
}

abbrev tenth : Decimal
tenth = record { coefficient = pos 1; places = 1 }

abbrev venue : Venue
venue = record {
  fees = default_fees;
  partial_fill_fraction = tenth;
  liquidity_floor_multiple = pos 10;
  max_slippage_bps = pos 500;
  ratio = λ a b. zero_decimal;
}

abbrev request : Side → Option ℤ → Option ℤ → OrderRequest
request side size units = record {
  ticket_id = "T1";
  mint = "M1";
  side = side;
  decision_id = "D1";
  size_lamports = size;
  token_units = units;
  max_slippage_bps = pos 300;
  approval_id = "";
  quote_id = none;
  exit_reason = none;
  correlation_id = "C1";
}

abbrev placing : Side → Option ℤ → Option ℤ → Placing
placing side size units = record {
  request = request side size units;
  ledger_source = paper;
  order_id = "O1";
  venue_tx_ref = "dry_run:1";
  creator = none;
  exit_reason = some "take_profit";
}

abbrev found_at : CurveSnapshot → Found
found_at curve = record {
  overran = false;
  cancelled = false;
  curve = some curve;
  refusal = none;
  size_lamports = none;
  dropped = false;
}

abbrev genesis : LedgerState
genesis = initial_state "paper" (pos 10_000_000_000) "2026-01-01"

abbrev size : ℤ
size = pos 1_000_000_000

abbrev rows_of : Staged (List Body) → List Body
rows_of (done rows) = rows
rows_of _ = []

abbrev as_events : List Body → List Event
as_events [] = []
as_events (b ∷ bs) =
    record { seq = 1; ts_utc = "2026-01-01T00:00:01Z"; correlation_id = "C1"; body = b }
    ∷ as_events bs

as_events-AreRows : (rows : List Body) → AreRows (as_events rows) rows
as_events-AreRows [] = tt
as_events-AreRows (b ∷ bs) = (refl, as_events-AreRows bs)

abbrev no_prices : String → Prices
no_prices text = []

abbrev state_of : Result LedgerState → LedgerState
state_of (ok s) = s
state_of corrupt = genesis

abbrev buy_placing : Placing
buy_placing = placing buy (some size) none

abbrev buy_rows : List Body
buy_rows = rows_of (
    place_buy venue buy_placing size launch (found_at launch) zero_decimal "2026-01-01T00:00:01Z"
      genesis)

buy_done :
    place_buy venue buy_placing size launch
      (found_at launch)
      zero_decimal
      "2026-01-01T00:00:01Z"
      genesis
    ≡ done buy_rows
unfolding place_buy initial_state lookup ◌*ℤ◌ ◌+ℤ◌ ◌-ℤ◌ fraction_of network_cost buy_out venue_fee
    floor_div
buy_done = refl

abbrev after_buy : LedgerState
after_buy = state_of (fold no_prices genesis (as_events buy_rows))

buy_folds : fold no_prices genesis (as_events buy_rows) ≡ ok after_buy
unfolding place_buy initial_state lookup ◌*ℤ◌ ◌+ℤ◌ ◌-ℤ◌ fraction_of network_cost buy_out venue_fee
    fold reduce handle floor_div
buy_folds = refl

abbrev sell_placing : Placing
sell_placing = placing sell none (some (pos 34_277_831_558_567))

abbrev since : String → Option ℤ
since text = some (pos 60)

abbrev sell_rows_now : List Body
sell_rows_now =
    rows_of (
      place_sell venue sell_placing since launch after_buy (found_at launch) zero_decimal after_buy)

sell_done :
    place_sell venue sell_placing since launch after_buy (found_at launch) zero_decimal after_buy
    ≡ done sell_rows_now
unfolding place_buy initial_state lookup ◌*ℤ◌ ◌+ℤ◌ ◌-ℤ◌ fraction_of network_cost buy_out venue_fee
    fold reduce handle place_sell sell_out stamp on_position_opened buy_position_row track_peak
    on_fill equity_lamports buy_fill_row priority_fee total insert open_value
sell_done = refl

abbrev after_sell : LedgerState
after_sell = state_of (fold no_prices after_buy (as_events sell_rows_now))

sell_folds : fold no_prices after_buy (as_events sell_rows_now) ≡ ok after_sell
unfolding place_buy initial_state lookup ◌*ℤ◌ ◌+ℤ◌ ◌-ℤ◌ fraction_of network_cost buy_out venue_fee
    fold reduce handle place_sell sell_out stamp on_position_opened buy_position_row track_peak
    on_fill equity_lamports buy_fill_row priority_fee total insert open_value
sell_folds = refl

-- The curve after another's buy: too little would come out.
abbrev moved : CurveSnapshot
moved = record {
  s_lamports = pos 40_000_000_000;
  t_units = pos 804_750_000_000_000;
  complete = false;
  price_allowed = true;
}

abbrev refusal_of : Staged (List Body) → Refusal
refusal_of (refused r) = r
refusal_of _ = at_accepted ""

abbrev slipped : Refusal
slipped = refusal_of (
    place_buy venue buy_placing size launch (found_at moved) zero_decimal "2026-01-01T00:00:01Z"
      genesis)

buy_slips :
    (s : LedgerState)
    → place_buy venue buy_placing size launch (found_at moved) zero_decimal "2026-01-01T00:00:01Z" s
      ≡ refused slipped
unfolding place_buy initial_state lookup ◌*ℤ◌ ◌+ℤ◌ ◌-ℤ◌ fraction_of network_cost buy_out venue_fee
    floor_div
buy_slips s = refl

abbrev slip_event : Event
slip_event = record {
  seq = 9;
  ts_utc = "2026-01-01T00:00:02Z";
  correlation_id = "C1";
  body = order_rejected (refusal_row buy_placing "" "unplaced-D1" slipped);
}

abbrev after_slip : LedgerState
after_slip = state_of (reduce no_prices after_sell slip_event)

slip_folds : reduce no_prices after_sell slip_event ≡ ok after_slip
unfolding reduce handle
slip_folds = refl

default_fees-IsValid : IsValid default_fees
default_fees-IsValid = omega arith

place_buy-IsBought_example :
    (c : BuyConfirmed) × IsBought venue buy_placing size launch
      (found_at launch)
      "2026-01-01T00:00:01Z"
      genesis
      buy_rows
      c
place_buy-IsBought_example =
    place_buy-IsBought venue buy_placing size launch (found_at launch) zero_decimal
      "2026-01-01T00:00:01Z" genesis buy_rows buy_done

place_sell-IsSold_example :
    (plan : SellPlan) × (curve1 : CurveSnapshot) × (gross1 : ℤ) × IsSold venue sell_placing since
      launch
      (found_at launch)
      zero_decimal
      after_buy
      sell_rows_now
      plan
      curve1
      gross1
place_sell-IsSold_example =
    place_sell-IsSold venue sell_placing since launch after_buy (found_at launch) zero_decimal
      after_buy sell_rows_now sell_done

place-IsRefusal_example : IsRefusal venue buy_placing slipped
place-IsRefusal_example =
    place-IsRefusal venue buy_placing since size launch (found_at moved) zero_decimal
      "2026-01-01T00:00:01Z" genesis genesis slipped (inl (buy_slips genesis))

bought_and_sold : Day no_prices venue since genesis after_sell (pos 0 +ℤ pos 0 +ℤ pos 0)
bought_and_sold =
    next
      (next start (
        buy_settled buy_placing size launch (found_at launch) zero_decimal "2026-01-01T00:00:01Z"
          buy_rows (as_events buy_rows) named buy_done buy_rows_fit buy_folds))
      (sell_settled sell_placing launch after_buy (found_at launch) zero_decimal sell_rows_now
        (as_events sell_rows_now) sell_done sell_rows_fit sell_folds)
  where
    named : str_eq "M1" "" ≡ false
    named = refl

    buy_rows_fit : AreRows (as_events buy_rows) buy_rows
    buy_rows_fit = as_events-AreRows buy_rows

    sell_rows_fit : AreRows (as_events sell_rows_now) sell_rows_now
    sell_rows_fit = as_events-AreRows sell_rows_now

whole_day : Day no_prices venue since genesis after_slip (pos 0 +ℤ pos 0 +ℤ pos 0 +ℤ slipped.fees)
whole_day = next bought_and_sold (
    buy_refused buy_placing size launch (found_at moved) zero_decimal "2026-01-01T00:00:01Z" slipped
      "" "unplaced-D1" slip_event (buy_slips after_sell) refl slip_folds)

Day-genesis_books_example :
    (after_slip.cash_lamports +ℤ held_cost after_slip +ℤ (pos 0 +ℤ pos 0 +ℤ pos 0 +ℤ slipped.fees)
      ≡ pos 10_000_000_000 +ℤ after_slip.counters.realized_today_lamports)
    × HoldsUnits after_slip
Day-genesis_books_example =
    Day-genesis_books no_prices venue since "paper" "2026-01-01" (pos 10_000_000_000)
      (pos 0 +ℤ pos 0 +ℤ pos 0 +ℤ slipped.fees) after_slip default_fees-IsValid whole_day
