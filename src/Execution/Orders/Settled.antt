-- ===== src/Execution/Orders/Settled.antt =====
-- The `Fill` that a settlement returns, against the fill row that it appends: buy.py and
-- sell_stages.py of src/pumpgrok/execution/paper_adapter.
use pump_grok.Prelude.{
  ℕ, Bool, false, String, List, ◌∷◌, ◌≡◌, refl, sym, ap, subst, ◌∙◌, inl, inr, Bool-cases,
}
use pump_grok.Prelude.Int.{ℤ, pos, ◌≤ℤ◌}
use pump_grok.Prelude.Dict.{lookup}
use pump_grok.Ledger.Events.{Body, FillRecorded, fill_recorded}
use pump_grok.Ledger.State.{LedgerState}
use pump_grok.Core.Order.{Side, buy, sell, eqb_ℤ}
use pump_grok.Execution.Adapter.Model.{
  CurveSnapshot, Venue, Placing, done, >>=-eq-done, done-injective,
}
use pump_grok.Execution.Adapter.Confirm.{await_confirmation}
use pump_grok.Execution.Adapter.Buy.{
  BuyQuote, BuyConfirmed, buy_sizing, buy_confirm, buy_settle, buy_fill_rows, buy_fill_row,
}
use pump_grok.Execution.Adapter.Bought.{IsSized, buy_sizing-IsSized, buy_confirm-IsConfirmed}
use pump_grok.Execution.Adapter.Sell.{
  SellPlan, sell_targets, plan_sell, holding_at_confirming, slippage_at_confirming, sell_figures,
  sell_fill_row, sell_rows,
}
use pump_grok.Execution.Adapter.Sold.{sell_targets-IsTarget, plan_sell-IsPlan}
use pump_grok.Execution.Orders.Journal.{Fill, is_whole_fraction, stored_fill}
use pump_grok.Execution.Orders.Sizing.{
  Settlement, Accepted, Run, impact_buy, impact_sell, buy_fill, sell_fill, buy_finish, sell_finish,
  size_order,
}

-- The quotient of an amount and a positive bound of it is at least one exactly when they are equal.
abbrev pub IsRatio : Venue → Type 0
IsRatio v = (a b : ℤ) → pos 1 ≤ℤ b → a ≤ℤ b → is_whole_fraction (v.ratio a b) ≡ eqb_ℤ a b

-- A settlement's first row is the order's fill row, and its `Fill` is what a reader of that row makes
-- of it.
pub record IsRecorded (order_id : String) (t : Settlement) : Type 0 where
  pub row : FillRecorded
  pub rest : List Body
  pub bodies_eq : t.bodies ≡ fill_recorded row ∷ rest
  pub order : row.order_id ≡ order_id
  pub read_back : (n : ℕ) → t.fill n ≡ stored_fill order_id n row

with_status : Fill → Bool → Fill
with_status f b = record f { is_whole = b }

module _ (v : Venue) (ratio : IsRatio v) where
  buy_fill-stored :
      (p : Placing) (size : ℤ) (quote : BuyQuote) (curve0 : CurveSnapshot) (c : BuyConfirmed)
      (n : ℕ)
      → quote.size ≡ size
      → c.filled ≤ℤ size
      → pos 1 ≤ℤ size
      → c.fraction ≡ v.ratio c.filled size
      → buy_fill v p quote c n ≡ stored_fill p.order_id n (buy_fill_row v p curve0 c)
  unfolding buy_fill stored_fill buy_fill_row with_status
  buy_fill-stored p size quote curve0 c n sized le positive share =
      ap (with_status (stored_fill p.order_id n (buy_fill_row v p curve0 c))) (
        ap (eqb_ℤ c.filled) sized
        ∙ sym (ratio c.filled size positive le)
        ∙ ap is_whole_fraction (sym share))

  sell_fill-stored :
      (r : Run) (plan : SellPlan) (curve0 curve1 : CurveSnapshot) (gross1 out1 : ℤ) (n : ℕ)
      → plan.filled_units ≤ℤ plan.units
      → pos 1 ≤ℤ plan.units
      → plan.fraction ≡ v.ratio plan.filled_units plan.units
      → sell_fill v r.p plan (sell_figures v r.p plan gross1 out1) n
        ≡ stored_fill r.p.order_id n
            (sell_fill_row r.p plan curve0 curve1 r.latency (sell_figures v r.p plan gross1 out1))
  unfolding sell_fill stored_fill sell_fill_row sell_figures with_status
  sell_fill-stored r plan curve0 curve1 gross1 out1 n le positive share =
      ap
        (with_status (
          stored_fill r.p.order_id n
            (sell_fill_row r.p plan curve0 curve1 r.latency (sell_figures v r.p plan gross1 out1))))
        (sym (ratio plan.filled_units plan.units positive le) ∙ ap is_whole_fraction (sym share))

  buy_finish-IsRecorded :
      (r : Run) (size : ℤ) (quote : BuyQuote) (curve0 : CurveSnapshot) (s : LedgerState)
      (t : Settlement)
      → IsSized v r.p curve0 size quote
      → pos 1 ≤ℤ size
      → buy_finish v r quote curve0 s ≡ done t
      → IsRecorded r.p.order_id t
  unfolding buy_finish buy_settle buy_fill_rows buy_fill_row
  buy_finish-IsRecorded r size quote curve0 s t sized positive h =
      let (c, confirming, h1) =
        >>=-eq-done (buy_confirm v r.p quote curve0 r.found r.latency) _ h in
      let (bodies, settling, h2) = >>=-eq-done (buy_settle v r.p curve0 c r.now_ts s) _ h1 in
      let confirmed =
        buy_confirm-IsConfirmed v r.p size quote curve0 r.found r.latency c sized confirming in
      elim (Bool-cases (eqb_ℤ c.out1 (pos 0))) [
        | inl e ↦ let stuck = rw (buy_settle, e) at settling in cc
        | inr e ↦ subst (IsRecorded r.p.order_id) (done-injective _ t h2) (record {
          row = buy_fill_row v r.p curve0 c;
          rest = _;
          bodies_eq = sym (done-injective _ bodies (rw (buy_settle, e) at settling));
          order = refl;
          read_back = λ n.
              buy_fill-stored r.p size quote curve0 c n sized.priced.sized confirmed.filled-le_size
                positive confirmed.share;
        })
      ]

  sell_finish-IsRecorded :
      (r : Run) (plan : SellPlan) (curve0 : CurveSnapshot) (s : LedgerState) (t : Settlement)
      → plan.filled_units ≤ℤ plan.units
      → pos 1 ≤ℤ plan.units
      → plan.fraction ≡ v.ratio plan.filled_units plan.units
      → sell_finish v r plan curve0 s ≡ done t
      → IsRecorded r.p.order_id t
  unfolding sell_finish sell_rows sell_fill_row
  sell_finish-IsRecorded r plan curve0 s t le positive share h =
      let ((curve1, cap), awaiting, h1) = >>=-eq-done (await_confirmation r.p false r.found) _ h in
      let (position, holding, h2) =
        >>=-eq-done (holding_at_confirming r.p plan (lookup r.p.request.mint s.positions)) _ h1 in
      let ((gross1, out1), pricing, h3) =
        >>=-eq-done (slippage_at_confirming v r.p plan curve1) _ h2 in
      subst (IsRecorded r.p.order_id) (done-injective _ t h3) (record {
        row = sell_fill_row r.p plan curve0 curve1 r.latency (sell_figures v r.p plan gross1 out1);
        rest = _;
        bodies_eq = refl;
        order = refl;
        read_back = λ n. sell_fill-stored r plan curve0 curve1 gross1 out1 n le positive share;
      })

  planned :
      (p : Placing) (curve0 : CurveSnapshot) (s : LedgerState) (targets : ℤ × ℤ) (plan : SellPlan)
      → sell_targets v p curve0 s ≡ done targets
      → plan_sell v p curve0 targets ≡ done plan
      → (plan.filled_units ≤ℤ plan.units)
        × (pos 1 ≤ℤ plan.units)
        × (plan.fraction ≡ v.ratio plan.filled_units plan.units)
  planned p curve0 s (units, amount) plan sizing planning =
      let target = sell_targets-IsTarget v p curve0 s (units, amount) sizing in
      let is_plan = plan_sell-IsPlan v p curve0 (units, amount) plan planning in
      (
        rw (is_plan.units_eq, is_plan.filled_eq, target.asked) target.le_asked,
        rw (is_plan.units_eq, target.asked) target.some_asked,
        rw (is_plan.units_eq, is_plan.filled_eq) is_plan.share,
      )

  -- Whatever order was sized, a settlement of it returns the `Fill` that its row records.
  pub size_order-IsRecorded :
      (r : Run) (side : Side) (size : ℤ) (curve0 : CurveSnapshot) (s later : LedgerState)
      (a : Accepted) (t : Settlement)
      → (side ≡ buy → pos 1 ≤ℤ size)
      → size_order v r side size curve0 s ≡ done a
      → a.finish later ≡ done t
      → IsRecorded r.p.order_id t
  unfolding size_order
  size_order-IsRecorded r buy size curve0 s later a t positive h ended =
      let (quote, sizing, h1) = >>=-eq-done (buy_sizing v r.p size curve0) _ h in
      let (impact, pricing, h2) = >>=-eq-done (impact_buy v curve0.s_lamports quote.filled) _ h1 in
      buy_finish-IsRecorded r size quote curve0 later t
        (buy_sizing-IsSized v r.p size curve0 quote sizing) (positive refl)
        (ap (λ x. x.finish later) (done-injective _ a h2) ∙ ended)
  size_order-IsRecorded r sell size curve0 s later a t positive h ended =
      let (targets, sizing, h1) = >>=-eq-done (sell_targets v r.p curve0 s) _ h in
      let (plan, planning, h2) = >>=-eq-done (plan_sell v r.p curve0 targets) _ h1 in
      let (impact, pricing, h3) =
        >>=-eq-done (impact_sell v curve0.t_units plan.filled_units) _ h2 in
      let (le, positive_units, share) = planned r.p curve0 s targets plan sizing planning in
      sell_finish-IsRecorded r plan curve0 later t le positive_units share
        (ap (λ x. x.finish later) (done-injective _ a h3) ∙ ended)
