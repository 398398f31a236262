-- ===== src/Ledger/Reducer/Tests.antt =====
-- The reducer's theorems on one trading day: a buy, a mark, a partial sale, a rejection, a halt
-- and a rollover.
use pump_grok.Prelude.{ℕ, String, ◌≡◌, refl, false, none, some, List, [], ◌∷◌, arith}
use pump_grok.Prelude.Int.{ℤ, pos, negsuc, ◌+ℤ◌, ◌-ℤ◌, ◌*ℤ◌, ◌≤ℤ◌, floor_div, min_ℤ, max_ℤ}
use pump_grok.Prelude.Dict.{lookup, insert, total}
use pump_grok.Prelude.Decimal.{Decimal, max_decimal, lt_decimal}
use pump_grok.Ledger.Events.{
  Event, Body, FillRecorded, PositionOpened, OrderRejected, MarkToMarket, HaltSet, DailyRollover,
  paper, fill_recorded, position_opened, order_rejected, mark_to_market, halt_set, daily_rollover,
  unknown,
}
use pump_grok.Ledger.State.{
  LedgerState, PositionView, initial_state, position_value_lamports, open_value, equity_lamports,
  track_peak,
}
use pump_grok.Ledger.Mark.{
  Prices, price, Result, ok, corrupt, marked_peak, marked, mark_one, mark_all, on_mtm,
}
use pump_grok.Ledger.Fill.{
  on_position_opened, add_realized, fill_fee, bought, reduction, remaining_share, received, sold,
  is_sale, fill_position, booked, fill_counters, filled, on_fill, on_rejected,
}
use pump_grok.Ledger.Reducer.{on_halt_set, on_rollover, handle, stamp, reduce, fold}
use pump_grok.Ledger.Reducer.Cash.{cash_flow, fold-cash}
use pump_grok.Ledger.Reducer.Peak.{fold-genesis_peak}
use pump_grok.Ledger.Reducer.Latches.{last_halt, last_kill, fold-latches}
use pump_grok.Ledger.Reducer.Sale.{on_fill-equity_drop, fill_position-sale}

abbrev cents : ℕ → Decimal
cents n = record { coefficient = pos n; places = 2 }

abbrev fill : String → ℤ → ℤ → FillRecorded
fill side units cash = record {
  source = paper;
  order_id = "o1";
  decision_id = "d1";
  side = side;
  mint = "M";
  filled_lamports = pos 1_000;
  filled_units = units;
  filled_fraction = cents 100;
  price_avg = cents 5;
  venue_fee_lamports = pos 10;
  network_cost_lamports = pos 5;
  cash_delta_lamports = cash;
  latency_s = cents 0;
  venue_tx_ref = "";
  curve_before_s = pos 0;
  curve_before_t = pos 0;
  curve_after_s = pos 0;
  curve_after_t = pos 0;
  route = "curve";
  realised_slippage_bps = pos 0;
}

abbrev opened_row : PositionOpened
opened_row = record {
  source = paper;
  mint = "M";
  price_entry = cents 5;
  token_units = pos 200;
  cost_basis_lamports = pos 1_005;
  opened_ts_utc = "t0";
  symbol = "MM";
  creator = "c";
  ticket_id = "k";
  score = cents 0;
}

abbrev rejected_row : OrderRejected
rejected_row = record {
  source = paper;
  order_id = "o2";
  decision_id = "d2";
  reason = "tx_dropped";
  detail = "";
  stage = "sent";
  fees_lamports = pos 5;
  quote_out = pos 0;
  other_amount_threshold = pos 0;
  confirm_out = pos 0;
}

abbrev mark_row : MarkToMarket
mark_row = record {
  source = paper;
  ts_source = "curve";
  cash_lamports = pos 0;
  equity_lamports = pos 0;
  unrealized_lamports = pos 0;
  prices_json = "M";
}

abbrev halt_row : HaltSet
halt_row = record {
  source = paper;
  reason = "drawdown";
  detail = "";
  equity_lamports = pos 0;
  day_start_equity_lamports = pos 0;
  set_by = "risk";
}

abbrev rollover_row : DailyRollover
rollover_row = record {
  source = paper;
  day_utc = "2026-01-02";
  day_start_equity_lamports = pos 10_000;
  prior_day_json = "";
  open_positions = "M" ∷ [];
}

abbrev event : ℕ → Body → Event
event n b = record { seq = n; ts_utc = "t"; correlation_id = "c"; body = b }

abbrev parse_prices : String → Prices
parse_prices text =
    (
      text,
      some (record {
        mtm_lamports = some (pos 1_400);
        venue_fee_lamports = some (pos 14);
        spot = price (cents 7);
        ts_utc = none;
        source = none;
      }),
    )
    ∷ []

abbrev morning : List Event
morning =
    event 1 (fill_recorded (fill "buy" (pos 200) (negsuc 1_004)))
    ∷ event 2 (position_opened opened_row)
    ∷ event 3 (mark_to_market mark_row)
    ∷ []

abbrev day : List Event
day =
    event 1 (fill_recorded (fill "buy" (pos 200) (negsuc 1_004)))
    ∷ event 2 (position_opened opened_row)
    ∷ event 3 (mark_to_market mark_row)
    ∷ event 4 (halt_set halt_row)
    ∷ event 5 (fill_recorded (fill "sell" (pos 50) (pos 300)))
    ∷ event 6 (order_rejected rejected_row)
    ∷ event 7 (daily_rollover rollover_row)
    ∷ event 8 (unknown "LaterType")
    ∷ []

abbrev start : LedgerState
start = initial_state "paper" (pos 10_000) "2026-01-01"

abbrev state_or_start : Result LedgerState → LedgerState
state_or_start (ok s) = s
state_or_start corrupt = start

abbrev marked_state : LedgerState
marked_state = state_or_start (fold parse_prices start morning)

abbrev final : LedgerState
final = state_or_start (fold parse_prices start day)

abbrev position : PositionView
position = record {
  mint = "M";
  symbol = "MM";
  creator = "c";
  ticket_id = "k";
  correlation_id = "c";
  price_entry = cents 5;
  price_peak = cents 7;
  token_units = pos 200;
  cost_basis_lamports = pos 1_005;
  fees_lamports = pos 0;
  opened_ts_utc = "t0";
  last_mtm_lamports = pos 1_400;
  last_mtm_venue_fee_lamports = pos 14;
  last_mtm_ts_utc = "t";
  mtm_source = "curve";
  mtm_frozen = false;
}

abbrev left : PositionView
left = record position {
  token_units = pos 150;
  cost_basis_lamports = pos 754;
  last_mtm_lamports = pos 1_050;
  last_mtm_venue_fee_lamports = pos 10;
}

day-ok : fold parse_prices start day ≡ ok final
unfolding fold initial_state reduce handle stamp on_position_opened on_fill on_rejected on_mtm
    on_halt_set on_rollover mark_all mark_one lookup track_peak equity_lamports ◌+ℤ◌ total insert
    open_value marked_peak
day-ok = refl

final-positions : final.positions ≡ ("M", left) ∷ []
unfolding fold initial_state reduce handle stamp on_position_opened on_fill on_rejected on_mtm
    on_halt_set on_rollover mark_all mark_one lookup track_peak equity_lamports ◌+ℤ◌ total insert
    open_value marked_peak marked max_decimal lt_decimal ◌*ℤ◌ filled fill_position bought sold
    reduction remaining_share received is_sale floor_div min_ℤ max_ℤ ◌-ℤ◌ position_value_lamports
    fill_counters fill_fee add_realized booked
final-positions = refl

fold-cash_example : final.cash_lamports ≡ start.cash_lamports +ℤ cash_flow day
fold-cash_example = fold-cash parse_prices start final day day-ok

fold-genesis_peak_example :
    (equity_lamports final ≤ℤ final.peak_equity_lamports)
    × (pos 10_000 ≤ℤ final.peak_equity_lamports)
fold-genesis_peak_example =
    fold-genesis_peak parse_prices "paper" "2026-01-01" (pos 10_000) final day (omega arith) day-ok

fold-latches_example :
    (final.halt ≡ last_halt start.halt day) × (final.kill_switch ≡ last_kill start.kill_switch day)
fold-latches_example = fold-latches parse_prices start final day day-ok

on_fill-equity_drop_example :
    let row = fill "sell" (pos 50) (pos 300) in
    let share = remaining_share position.last_mtm_lamports row position in
    let after = equity_lamports (on_fill marked_state row) in
    (after +ℤ pos 5 ≤ℤ equity_lamports marked_state)
    × (after +ℤ pos 5 +ℤ (position.last_mtm_lamports -ℤ share)
        ≤ℤ equity_lamports marked_state +ℤ received row)
unfolding ◌+ℤ◌
on_fill-equity_drop_example =
    on_fill-equity_drop marked_state (fill "sell" (pos 50) (pos 300)) position found
      (refl, omega arith) (omega arith) (omega arith) refl (unfold received in omega arith)
  where
    found : lookup "M" marked_state.positions ≡ some position
    found =
        unfold fold initial_state reduce handle stamp on_position_opened on_fill on_mtm lookup
          mark_all mark_one track_peak equity_lamports ◌+ℤ◌ total insert open_value marked_peak
          marked max_decimal lt_decimal ◌*ℤ◌ in
        refl

fill_position-sale_example :
    let row = fill "sell" (pos 50) (pos 300) in
    let q = fill_position row position in
    (q.token_units ≡ pos 200 -ℤ pos 50)
    × (pos 0 ≤ℤ q.cost_basis_lamports)
    × (q.cost_basis_lamports ≤ℤ pos 1_005)
    × (pos 50 ≡ pos 200 → (q.token_units ≡ pos 0) × (q.cost_basis_lamports ≡ pos 0))
fill_position-sale_example =
    fill_position-sale (fill "sell" (pos 50) (pos 300)) position (refl, omega arith) (omega arith)
      (omega arith)
