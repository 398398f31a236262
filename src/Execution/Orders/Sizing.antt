-- ===== src/Execution/Orders/Sizing.antt =====
-- The stages of an order with the `Fill` that they end in: buy.py and sell_stages.py of
-- src/pumpgrok/execution/paper_adapter.
use pump_grok.Prelude.{ℕ, false, not, ◌&&◌, String, Option, none, some, List, if◌then◌else◌}
use pump_grok.Prelude.Int.{ℤ, pos, ◌+ℤ◌, leb_ℤ}
use pump_grok.Prelude.Dict.{lookup}
use pump_grok.Prelude.Decimal.{Decimal}
use pump_grok.Ledger.Events.{Body}
use pump_grok.Ledger.State.{LedgerState}
use pump_grok.Core.Order.{Side, buy, sell, OrderRequest, is_buy_side, eqb_ℤ}
use pump_grok.Execution.Fees.{network_cost}
use pump_grok.Execution.Adapter.Model.{
  CurveSnapshot, Venue, Placing, Staged, done, refused, raised, ◌>>=◌, at_accepted, realised_bps,
}
use pump_grok.Execution.Adapter.Confirm.{Found, await_confirmation}
use pump_grok.Execution.Adapter.Buy.{BuyQuote, BuyConfirmed, buy_sizing, buy_confirm, buy_settle}
use pump_grok.Execution.Adapter.Sell.{
  SellPlan, SellFigures, sell_targets, plan_sell, holding_at_confirming, slippage_at_confirming,
  sell_figures, sell_rows,
}
use pump_grok.Execution.Orders.Journal.{Fill}

-- What a settlement appends, and its `Fill` once the first row has its `seq`.
pub record Settlement : Type 0 where
  pub bodies : List Body
  pub fill : ℕ → Fill

-- An order that was sized: its quote's figures, and its stages from the confirmation on, given the
-- fold at settlement.
pub record Accepted : Type 0 where
  pub out0 : ℤ
  pub threshold : ℤ
  pub impact : Decimal
  pub finish : LedgerState → Staged Settlement

-- `_order_curve`
unfoldable pub order_curve : OrderRequest → Option CurveSnapshot → Staged CurveSnapshot
order_curve request none = refused (at_accepted "no_reserves")
order_curve request (some c) =
    if is_buy_side request.side && not c.price_allowed
    then refused (at_accepted "data_unavailable")
    else if c.complete
    then refused (at_accepted "post_graduation_no_reserves")
    else done c

-- `impact_buy` and `impact_sell` of curve_math.py, which raise on an empty reserve.
unfoldable pub impact_buy : Venue → ℤ → ℤ → Staged Decimal
impact_buy v s x = if leb_ℤ s (pos 0) then raised else done (v.ratio x s)

unfoldable pub impact_sell : Venue → ℤ → ℤ → Staged Decimal
impact_sell v t units = if leb_ℤ t (pos 0) then raised else done (v.ratio units (t +ℤ units))

-- What one placement is given: the size that the engine gave, what it finds after the latency, and
-- the clock. `since` is the age of a time that parses.
pub record Run : Type 0 where
  pub p : Placing
  pub found : Found
  pub latency : Decimal
  pub now_ts : String
  pub since : String → Option ℤ

module _ (v : Venue) where
  unfoldable pub buy_fill : Placing → BuyQuote → BuyConfirmed → ℕ → Fill
  unfolding realised_bps
  buy_fill p quote c seq = record {
    order_id = p.order_id;
    decision_id = p.request.decision_id;
    is_whole = eqb_ℤ c.filled quote.size;
    venue_tx_ref = p.venue_tx_ref;
    filled_lamports = c.filled;
    filled_units = c.out1;
    filled_fraction = c.fraction;
    price_avg = v.ratio c.x_net c.out1;
    realised_slippage_bps = realised_bps c.out0 c.out1;
    venue_fee_lamports = c.venue_fee;
    network_cost_lamports = network_cost v.fees;
    route = "curve";
    ledger_seq = seq;
  }

  unfoldable pub sell_fill : Placing → SellPlan → SellFigures → ℕ → Fill
  sell_fill p plan figures seq = record {
    order_id = p.order_id;
    decision_id = p.request.decision_id;
    is_whole = eqb_ℤ plan.filled_units plan.units;
    venue_tx_ref = figures.venue_tx_ref;
    filled_lamports = figures.proceeds;
    filled_units = plan.filled_units;
    filled_fraction = figures.fraction;
    price_avg = figures.price_avg;
    realised_slippage_bps = figures.slipped;
    venue_fee_lamports = figures.venue_fee;
    network_cost_lamports = figures.network_cost;
    route = "curve";
    ledger_seq = seq;
  }

  -- `_buy_confirm` and `_buy_settle`
  unfoldable pub buy_finish : Run → BuyQuote → CurveSnapshot → LedgerState → Staged Settlement
  unfolding buy_confirm buy_settle buy_fill
  buy_finish r quote curve0 s = do
    c ← buy_confirm v r.p quote curve0 r.found r.latency
    bodies ← buy_settle v r.p curve0 c r.now_ts s
    done (record { bodies = bodies; fill = buy_fill r.p quote c })

  -- `_finish_sell`
  unfoldable pub sell_finish : Run → SellPlan → CurveSnapshot → LedgerState → Staged Settlement
  unfolding await_confirmation holding_at_confirming slippage_at_confirming sell_figures sell_rows
      sell_fill
  sell_finish r plan curve0 s = do
    (curve1, cap) ← await_confirmation r.p false r.found
    position ← holding_at_confirming r.p plan (lookup r.p.request.mint s.positions)
    (gross1, out1) ← slippage_at_confirming v r.p plan curve1
    let figures = sell_figures v r.p plan gross1 out1
    done (record {
      bodies = sell_rows v r.p r.since plan curve0 curve1 r.latency figures position;
      fill = sell_fill r.p plan figures;
    })

  -- `_place_buy` and `_place_sell` up to the order's write. `size` is the engine's.
  unfoldable pub size_order : Run → Side → ℤ → CurveSnapshot → LedgerState → Staged Accepted
  unfolding buy_sizing impact_buy buy_finish sell_targets plan_sell impact_sell sell_finish
  size_order r buy size curve0 s = do
    quote ← buy_sizing v r.p size curve0
    impact ← impact_buy v curve0.s_lamports quote.filled
    done (record {
      out0 = quote.out0;
      threshold = quote.threshold;
      impact = impact;
      finish = buy_finish r quote curve0;
    })
  size_order r sell size curve0 s = do
    targets ← sell_targets v r.p curve0 s
    plan ← plan_sell v r.p curve0 targets
    impact ← impact_sell v curve0.t_units plan.filled_units
    done (record {
      out0 = plan.out0;
      threshold = plan.threshold;
      impact = impact;
      finish = sell_finish r plan curve0;
    })
