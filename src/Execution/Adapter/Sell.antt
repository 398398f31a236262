-- ===== src/Execution/Adapter/Sell.antt =====
-- The sell stages of src/pumpgrok/execution/paper_adapter: sell.py, sell_stages.py, and the sizing
-- of a sell in adapter.py.
use pump_grok.Prelude.{
  false, ◌&&◌, ◌||◌, String, Option, none, some, List, [], ◌∷◌, if◌then◌else◌, str_eq,
}
use pump_grok.Prelude.Int.{ℤ, pos, ◌-ℤ◌, ◌*ℤ◌, ltb_ℤ, leb_ℤ, min_ℤ, max_ℤ, floor_div}
use pump_grok.Prelude.Dict.{lookup}
use pump_grok.Prelude.Decimal.{Decimal, zero_decimal}
use pump_grok.Ledger.Events.{Body, FillRecorded, fill_recorded, PositionClosed, position_closed}
use pump_grok.Ledger.State.{LedgerState, PositionView}
use pump_grok.Core.Order.{OrderRequest, eqb_ℤ}
use pump_grok.Execution.Curve.{sell_out}
use pump_grok.Execution.Fees.{venue_fee, network_cost}
use pump_grok.Execution.Adapter.Model.{
  CurveSnapshot, Venue, Placing, Staged, done, refused, ◌>>=◌, or_raise, at_accepted, at_confirming,
  fill_cap, floor_of, slippage_bps, kept_share, realised_bps,
}
use pump_grok.Execution.Adapter.Confirm.{Found, await_confirmation}

-- `_sell_preview_units`
unfoldable pub preview_units : Option ℤ → Option ℤ → CurveSnapshot → ℤ
preview_units size_lamports (some units) curve = units
preview_units none none curve = pos 0
preview_units (some size) none curve =
    if leb_ℤ size (pos 0) || leb_ℤ curve.s_lamports (pos 0)
    then pos 0
    else floor_div (size *ℤ curve.t_units) curve.s_lamports

unfoldable pub sell_units : OrderRequest → CurveSnapshot → ℤ
unfolding preview_units
sell_units request curve = preview_units request.size_lamports request.token_units curve

-- `_open_units`, by the position that the mint has.
abbrev pub open_units : Option PositionView → ℤ
open_units none = pos 0
open_units (some p) = p.token_units

-- The units asked for and the units to fill.
unfoldable pub sell_targets : Venue → Placing → CurveSnapshot → LedgerState → Staged (ℤ × ℤ)
unfolding sell_units floor_of fill_cap min_ℤ
sell_targets v p curve0 s =
    let units = sell_units p.request curve0 in
    let available = open_units (lookup p.request.mint s.positions) in
    if leb_ℤ available (pos 0)
    then refused (at_accepted "no_position")
    else if leb_ℤ units (pos 0)
    then refused (at_accepted "below_liquidity_floor")
    else if ltb_ℤ curve0.t_units (floor_of v units)
    then refused (at_accepted "below_liquidity_floor")
    else done (units, min_ℤ (min_ℤ units (fill_cap v curve0.t_units)) available)

-- `SellPlan`. The fraction is `ratio filled_units units`.
pub record SellPlan : Type 0 where
  pub units : ℤ
  pub filled_units : ℤ
  pub fraction : Decimal
  pub out0 : ℤ
  pub threshold : ℤ

-- What a sale of `gross` brings in after the venue's fee.
unfoldable pub after_venue_fee : Venue → ℤ → ℤ
unfolding venue_fee
after_venue_fee v gross = gross -ℤ venue_fee v.fees gross

unfoldable pub plan_sell : Venue → Placing → CurveSnapshot → ℤ × ℤ → Staged SellPlan
unfolding sell_out after_venue_fee slippage_bps
plan_sell v p curve0 (units, filled_units) =
    or_raise (sell_out curve0.s_lamports curve0.t_units filled_units) >>= λ gross0. done (record {
      units = units;
      filled_units = filled_units;
      fraction = v.ratio filled_units units;
      out0 = after_venue_fee v gross0;
      threshold = kept_share (after_venue_fee v gross0) (pos 10_000 -ℤ slippage_bps v p.request);
    })

-- The units that an exit may take: those of a position that holds some.
abbrev pub held_units : Option PositionView → ℤ
held_units none = pos 0
held_units (some p) = if ltb_ℤ (pos 0) p.token_units then p.token_units else pos 0

-- `_sell_holding_at_confirming`, on the fold at CONFIRMING.
unfoldable pub holding_at_confirming :
    Placing → SellPlan → Option PositionView → Staged (Option PositionView)
holding_at_confirming p plan position =
    if ltb_ℤ (held_units position) plan.filled_units
    then refused (at_confirming p "no_position")
    else done position

-- `_sell_slippage_at_confirming`: the gross amount and what is left of it after the venue's fee.
unfoldable pub slippage_at_confirming : Venue → Placing → SellPlan → CurveSnapshot → Staged (ℤ × ℤ)
unfolding sell_out after_venue_fee
slippage_at_confirming v p plan curve1 =
    or_raise (sell_out curve1.s_lamports curve1.t_units plan.filled_units) >>= λ gross1.
    if ltb_ℤ (after_venue_fee v gross1) plan.threshold
    then refused (record {
      order_id = some p.order_id;
      reason = "slippage_exceeded";
      stage = "CONFIRMING";
      fees = network_cost v.fees;
      quote_out = plan.out0;
      threshold = plan.threshold;
      confirm_out = after_venue_fee v gross1;
    })
    else done (gross1, after_venue_fee v gross1)

pub record SellFigures : Type 0 where
  pub fraction : Decimal
  pub gross1 : ℤ
  pub proceeds : ℤ
  pub network_cost : ℤ
  pub venue_fee : ℤ
  pub price_avg : Decimal
  pub slipped : ℤ
  pub venue_tx_ref : String

unfoldable pub sell_figures : Venue → Placing → SellPlan → ℤ → ℤ → SellFigures
unfolding realised_bps
sell_figures v p plan gross1 out1 = record {
  fraction = plan.fraction;
  gross1 = gross1;
  proceeds = out1 -ℤ network_cost v.fees;
  network_cost = network_cost v.fees;
  venue_fee = venue_fee v.fees gross1;
  price_avg = v.ratio gross1 plan.filled_units;
  slipped = realised_bps plan.out0 out1;
  venue_tx_ref = p.venue_tx_ref;
}

unfoldable pub sell_fill_row :
    Placing → SellPlan → CurveSnapshot → CurveSnapshot → Decimal → SellFigures → FillRecorded
sell_fill_row p plan curve0 curve1 latency figures = record {
  source = p.ledger_source;
  order_id = p.order_id;
  decision_id = p.request.decision_id;
  side = "sell";
  mint = p.request.mint;
  filled_lamports = figures.proceeds;
  filled_units = plan.filled_units;
  filled_fraction = figures.fraction;
  price_avg = figures.price_avg;
  venue_fee_lamports = figures.venue_fee;
  network_cost_lamports = figures.network_cost;
  cash_delta_lamports = figures.proceeds;
  latency_s = latency;
  venue_tx_ref = figures.venue_tx_ref;
  curve_before_s = curve0.s_lamports;
  curve_before_t = curve0.t_units;
  curve_after_s = curve1.s_lamports;
  curve_after_t = curve1.t_units;
  route = "curve";
  realised_slippage_bps = figures.slipped;
}

-- `exit_reason or "manual"`
abbrev pub close_reason : Option String → String
close_reason none = "manual"
close_reason (some reason) = if str_eq reason "" then "manual" else reason

-- `max(hold_s, 0)`, where a time that does not parse has held for 0.
abbrev pub hold_seconds : Option ℤ → ℤ
hold_seconds none = pos 0
hold_seconds (some seconds) = max_ℤ seconds (pos 0)

unfoldable pub pnl_ratio : Venue → ℤ → ℤ → Decimal
pnl_ratio v realized cost = if eqb_ℤ cost (pos 0) then zero_decimal else v.ratio realized cost

-- `seconds_since ts` is `int(now - parse_ts_utc(ts))`, and `none` where `ts` does not parse.
module _ (v : Venue) (p : Placing) (seconds_since : String → Option ℤ) where
  unfoldable pub position_closed_row : PositionView → SellFigures → PositionClosed
  unfolding pnl_ratio
  position_closed_row position figures = record {
    source = p.ledger_source;
    mint = p.request.mint;
    price_exit = figures.price_avg;
    proceeds_lamports = figures.proceeds;
    realized_pnl_lamports = figures.proceeds -ℤ position.cost_basis_lamports;
    reason = close_reason p.exit_reason;
    pnl_pct =
        pnl_ratio v (figures.proceeds -ℤ position.cost_basis_lamports) position.cost_basis_lamports;
    hold_seconds = hold_seconds (seconds_since position.opened_ts_utc);
    venue_tx_ref = figures.venue_tx_ref;
  }

  -- `_sell_rows` after the fill: the close of a holding that the exit empties.
  unfoldable pub closing_rows : SellPlan → SellFigures → Option PositionView → List Body
  unfolding position_closed_row
  closing_rows plan figures none = []
  closing_rows plan figures (some position) =
      if ltb_ℤ (pos 0) position.token_units && leb_ℤ position.token_units plan.filled_units
      then position_closed (position_closed_row position figures) ∷ []
      else []

  unfoldable pub sell_rows :
      SellPlan
      → CurveSnapshot
      → CurveSnapshot
      → Decimal
      → SellFigures
      → Option PositionView
      → List Body
  unfolding sell_fill_row closing_rows
  sell_rows plan curve0 curve1 latency figures position =
      fill_recorded (sell_fill_row p plan curve0 curve1 latency figures)
      ∷ closing_rows plan figures position

  -- `_finish_sell`: the rows that it appends. `now` is the fold at CONFIRMING.
  unfoldable pub finish_sell :
      SellPlan → CurveSnapshot → Found → Decimal → LedgerState → Staged (List Body)
  unfolding await_confirmation holding_at_confirming slippage_at_confirming sell_figures sell_rows
  finish_sell plan curve0 found latency now = do
    (curve1, cap) ← await_confirmation p false found
    position ← holding_at_confirming p plan (lookup p.request.mint now.positions)
    (gross1, out1) ← slippage_at_confirming v p plan curve1
    done (sell_rows plan curve0 curve1 latency (sell_figures v p plan gross1 out1) position)

  -- `_place_sell` for an order that is written: `s` is the fold at its acceptance.
  unfoldable pub place_sell :
      CurveSnapshot → LedgerState → Found → Decimal → LedgerState → Staged (List Body)
  unfolding sell_targets plan_sell finish_sell
  place_sell curve0 s found latency now = do
    targets ← sell_targets v p curve0 s
    plan ← plan_sell v p curve0 targets
    finish_sell plan curve0 found latency now
