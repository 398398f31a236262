-- ===== src/Execution/Adapter/Buy.antt =====
-- The buy stages of src/pumpgrok/execution/paper_adapter/buy.py.
use pump_grok.Prelude.{Bool, true, false, String, Option, none, some, List, [], ◌∷◌, if◌then◌else◌}
use pump_grok.Prelude.Int.{ℤ, pos, ◌+ℤ◌, ◌-ℤ◌, ltb_ℤ, leb_ℤ, min_ℤ}
use pump_grok.Prelude.Dict.{lookup}
use pump_grok.Prelude.Decimal.{Decimal, zero_decimal}
use pump_grok.Ledger.Events.{Body, FillRecorded, fill_recorded, PositionOpened, position_opened}
use pump_grok.Ledger.State.{LedgerState, PositionView}
use pump_grok.Core.Order.{eqb_ℤ}
use pump_grok.Execution.Curve.{buy_out}
use pump_grok.Execution.Fees.{venue_fee, network_cost}
use pump_grok.Execution.Adapter.Model.{
  CurveSnapshot, Venue, Placing, Staged, done, refused, raised, ◌>>=◌, or_raise, at_accepted,
  fill_cap, floor_of, slippage_bps, kept_share, realised_bps,
}
use pump_grok.Execution.Adapter.Confirm.{Found, await_confirmation}

-- `_BuyQuote`. The fraction is `ratio filled size`.
pub record BuyQuote : Type 0 where
  pub size : ℤ
  pub filled : ℤ
  pub fraction : Decimal
  pub venue_fee : ℤ
  pub x_net : ℤ
  pub slippage_bps : ℤ
  pub out0 : ℤ
  pub threshold : ℤ

-- A fill of `filled` lamports priced at the decision reserves, as sizing and the recap both do.
unfoldable pub priced_at : Venue → CurveSnapshot → ℤ → ℤ → ℤ → Staged BuyQuote
unfolding buy_out venue_fee
priced_at v curve0 size filled slippage =
    if eqb_ℤ size (pos 0)
    then raised
    else (or_raise (buy_out curve0.s_lamports curve0.t_units (filled -ℤ venue_fee v.fees filled))
        >>= λ out0. done (record {
          size = size;
          filled = filled;
          fraction = v.ratio filled size;
          venue_fee = venue_fee v.fees filled;
          x_net = filled -ℤ venue_fee v.fees filled;
          slippage_bps = slippage;
          out0 = out0;
          threshold = kept_share out0 (pos 10_000 -ℤ slippage);
        }))

unfoldable pub buy_sizing : Venue → Placing → ℤ → CurveSnapshot → Staged BuyQuote
unfolding priced_at fill_cap floor_of slippage_bps min_ℤ
buy_sizing v p size curve0 =
    if ltb_ℤ curve0.s_lamports (floor_of v size)
    then refused (at_accepted "below_liquidity_floor")
    else priced_at v curve0 size (min_ℤ size (fill_cap v curve0.s_lamports))
        (slippage_bps v p.request)

-- The recap by the cap that CONFIRMING gave.
unfoldable pub buy_recap : Venue → BuyQuote → CurveSnapshot → Option ℤ → Staged BuyQuote
unfolding priced_at
buy_recap v quote curve0 none = done quote
buy_recap v quote curve0 (some cap_now) =
    if leb_ℤ quote.filled cap_now
    then done quote
    else priced_at v curve0 quote.size cap_now quote.slippage_bps

-- `_BuyConfirmed`
pub record BuyConfirmed : Type 0 where
  pub curve1 : CurveSnapshot
  pub latency : Decimal
  pub filled : ℤ
  pub fraction : Decimal
  pub venue_fee : ℤ
  pub x_net : ℤ
  pub out0 : ℤ
  pub threshold : ℤ
  pub out1 : ℤ

unfoldable pub buy_guard_slippage : Venue → Placing → BuyQuote → ℤ → Staged (Unit {0})
buy_guard_slippage v p priced out1 =
    if leb_ℤ priced.threshold out1
    then done tt
    else refused (record {
      order_id = some p.order_id;
      reason = "slippage_exceeded";
      stage = "CONFIRMING";
      fees = network_cost v.fees;
      quote_out = priced.out0;
      threshold = priced.threshold;
      confirm_out = out1;
    })

unfoldable pub buy_confirm :
    Venue → Placing → BuyQuote → CurveSnapshot → Found → Decimal → Staged BuyConfirmed
unfolding await_confirmation buy_recap buy_guard_slippage buy_out
buy_confirm v p quote curve0 found latency = do
  (curve1, cap_now) ← await_confirmation p true found
  priced ← buy_recap v quote curve0 cap_now
  out1 ← or_raise (buy_out curve1.s_lamports curve1.t_units priced.x_net)
  _ ← buy_guard_slippage v p priced out1
  done (record {
    curve1 = curve1;
    latency = latency;
    filled = priced.filled;
    fraction = priced.fraction;
    venue_fee = priced.venue_fee;
    x_net = priced.x_net;
    out0 = priced.out0;
    threshold = priced.threshold;
    out1 = out1;
  })

-- `_has_open_position`, on the folded state.
abbrev pub is_held : Option PositionView → Bool
is_held none = false
is_held (some p) = ltb_ℤ (pos 0) p.token_units

unfoldable pub buy_fill_row : Venue → Placing → CurveSnapshot → BuyConfirmed → FillRecorded
unfolding realised_bps
buy_fill_row v p curve0 c = record {
  source = p.ledger_source;
  order_id = p.order_id;
  decision_id = p.request.decision_id;
  side = "buy";
  mint = p.request.mint;
  filled_lamports = c.filled;
  filled_units = c.out1;
  filled_fraction = c.fraction;
  price_avg = v.ratio c.x_net c.out1;
  venue_fee_lamports = c.venue_fee;
  network_cost_lamports = network_cost v.fees;
  cash_delta_lamports = pos 0 -ℤ (c.filled +ℤ network_cost v.fees);
  latency_s = c.latency;
  venue_tx_ref = p.venue_tx_ref;
  curve_before_s = curve0.s_lamports;
  curve_before_t = curve0.t_units;
  curve_after_s = c.curve1.s_lamports;
  curve_after_t = c.curve1.t_units;
  route = "curve";
  realised_slippage_bps = realised_bps c.out0 c.out1;
}

abbrev or_empty : Option String → String
or_empty none = ""
or_empty (some s) = s

unfoldable pub buy_position_row : Venue → Placing → BuyConfirmed → String → PositionOpened
buy_position_row v p c now_ts = record {
  source = p.ledger_source;
  mint = p.request.mint;
  price_entry = v.ratio c.x_net c.out1;
  token_units = c.out1;
  cost_basis_lamports = c.filled +ℤ network_cost v.fees;
  opened_ts_utc = now_ts;
  symbol = "";
  creator = or_empty p.creator;
  ticket_id = p.request.ticket_id;
  score = zero_decimal;
}

-- `_buy_fill_rows`, by whether the mint is held.
unfoldable pub buy_fill_rows :
    Venue → Placing → CurveSnapshot → BuyConfirmed → String → Bool → List Body
buy_fill_rows v p curve0 c now_ts had_position =
    fill_recorded (buy_fill_row v p curve0 c)
    ∷ (if had_position then [] else position_opened (buy_position_row v p c now_ts) ∷ [])

-- The rows that `_buy_settle` appends; a fill of no unit has no average price and raises.
unfoldable pub buy_settle :
    Venue → Placing → CurveSnapshot → BuyConfirmed → String → LedgerState → Staged (List Body)
unfolding buy_fill_rows
buy_settle v p curve0 c now_ts s =
    if eqb_ℤ c.out1 (pos 0)
    then raised
    else done (buy_fill_rows v p curve0 c now_ts (is_held (lookup p.request.mint s.positions)))

-- `_place_buy` for an order that is written: sizing, confirmation and settlement. `s` is the fold
-- at settlement.
unfoldable pub place_buy :
    Venue
    → Placing
    → ℤ
    → CurveSnapshot
    → Found
    → Decimal
    → String
    → LedgerState
    → Staged (List Body)
unfolding buy_sizing buy_confirm buy_settle
place_buy v p size curve0 found latency now_ts s = do
  quote ← buy_sizing v p size curve0
  confirmed ← buy_confirm v p quote curve0 found latency
  buy_settle v p curve0 confirmed now_ts s
