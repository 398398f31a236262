-- ===== src/Execution/Adapter/Refused.antt =====
-- What a refusal of the paper adapter records: src/pumpgrok/execution/paper_adapter.
use pump_grok.Prelude.{
  true, false, String, Option, none, some, ◌≡◌, refl, ◌⊎◌, inl, inr, subst, arith,
}
use pump_grok.Prelude.Int.{ℤ, pos, ◌-ℤ◌, ltb_ℤ, leb_ℤ, min_ℤ}
use pump_grok.Prelude.Dict.{lookup}
use pump_grok.Prelude.Decimal.{Decimal}
use pump_grok.Ledger.State.{LedgerState}
use pump_grok.Core.Order.{eqb_ℤ}
use pump_grok.Execution.Curve.{buy_out, sell_out}
use pump_grok.Execution.Fees.{venue_fee}
use pump_grok.Execution.Adapter.Model.{
  CurveSnapshot, Venue, Placing, Refusal, refused, or_raise, fill_cap, floor_of, slippage_bps,
}
use pump_grok.Execution.Adapter.Confirm.{Found, await_confirmation}
use pump_grok.Execution.Adapter.Buy.{
  BuyQuote, priced_at, buy_sizing, buy_recap, buy_guard_slippage, buy_confirm, buy_settle,
  place_buy,
}
use pump_grok.Execution.Adapter.Sell.{
  SellPlan, sell_targets, sell_units, open_units, plan_sell, after_venue_fee, held_units,
  holding_at_confirming, slippage_at_confirming, finish_sell, place_sell,
}
use pump_grok.Execution.Adapter.Refuses.{
  IsRefusal, Refuses, >>=-Refuses, or_raise-Refuses, if-Refuses, over-leb, over-ltb,
  await_confirmation-Refuses,
}

module _ (v : Venue) (p : Placing) where
  priced_at-Refuses :
      (curve0 : CurveSnapshot) (size amount slippage : ℤ)
      → Refuses (IsRefusal v p) (priced_at v curve0 size amount slippage)
  unfolding priced_at
  priced_at-Refuses curve0 size amount slippage =
      let P = IsRefusal v p in
      if-Refuses P (eqb_ℤ size (pos 0)) _ _ (λ e. tt)
        (λ e.
          >>=-Refuses P
            (or_raise
              (buy_out curve0.s_lamports curve0.t_units (amount -ℤ venue_fee v.fees amount)))
            _ (or_raise-Refuses P _) (λ out0. tt))

  buy_sizing-Refuses :
      (size : ℤ) (curve0 : CurveSnapshot) → Refuses (IsRefusal v p) (buy_sizing v p size curve0)
  unfolding buy_sizing
  buy_sizing-Refuses size curve0 =
      if-Refuses (IsRefusal v p) (ltb_ℤ curve0.s_lamports (floor_of v size)) _ _
        (λ e. inl (refl, refl, refl))
        (λ e.
          priced_at-Refuses curve0 size (min_ℤ size (fill_cap v curve0.s_lamports))
            (slippage_bps v p.request))

  buy_recap-Refuses :
      (q : BuyQuote) (curve0 : CurveSnapshot) (cap : Option ℤ)
      → Refuses (IsRefusal v p) (buy_recap v q curve0 cap)
  unfolding buy_recap
  buy_recap-Refuses q curve0 none = tt
  buy_recap-Refuses q curve0 (some now) =
      if-Refuses (IsRefusal v p) (leb_ℤ q.filled now) _ _ (λ e. tt)
        (λ e. priced_at-Refuses curve0 q.size now q.slippage_bps)

  buy_guard-Refuses :
      (q : BuyQuote) (out1 : ℤ) → Refuses (IsRefusal v p) (buy_guard_slippage v p q out1)
  unfolding buy_guard_slippage
  buy_guard-Refuses q out1 =
      if-Refuses (IsRefusal v p) (leb_ℤ q.threshold out1) _ _ (λ e. tt)
        (λ e. inr (refl, refl, inr (refl, refl, over-leb q.threshold out1 e)))

  place_buy-Refuses :
      (size : ℤ) (curve0 : CurveSnapshot) (found : Found) (latency : Decimal) (now_ts : String)
      (s : LedgerState)
      → Refuses (IsRefusal v p) (place_buy v p size curve0 found latency now_ts s)
  unfolding place_buy buy_confirm buy_settle
  place_buy-Refuses size curve0 found latency now_ts s =
      let P = IsRefusal v p in
      >>=-Refuses P (buy_sizing v p size curve0) _ (buy_sizing-Refuses size curve0) λ quote.
        >>=-Refuses P (buy_confirm v p quote curve0 found latency) _ (confirm quote)
          λ c. if-Refuses P (eqb_ℤ c.out1 (pos 0)) _ _ (λ e. tt) (λ e. tt)
    where
      confirm :
          (quote : BuyQuote) → Refuses (IsRefusal v p) (buy_confirm v p quote curve0 found latency)
      confirm quote =
          let P = IsRefusal v p in
          >>=-Refuses P (await_confirmation p true found) _
            (await_confirmation-Refuses v p true found)
            λ w.
              >>=-Refuses P (buy_recap v quote curve0 w.1) _ (buy_recap-Refuses quote curve0 w.1)
                λ priced.
                  >>=-Refuses P (or_raise (buy_out w.0.s_lamports w.0.t_units priced.x_net)) _
                    (or_raise-Refuses P _)
                    λ out1.
                      >>=-Refuses P (buy_guard_slippage v p priced out1) _
                        (buy_guard-Refuses priced out1) λ u. tt

  sell_targets-Refuses :
      (curve0 : CurveSnapshot) (s : LedgerState)
      → Refuses (IsRefusal v p) (sell_targets v p curve0 s)
  unfolding sell_targets
  sell_targets-Refuses curve0 s =
      let P = IsRefusal v p in
      let units = sell_units p.request curve0 in
      if-Refuses P (leb_ℤ (open_units (lookup p.request.mint s.positions)) (pos 0)) _ _
        (λ e. inl (refl, refl, refl))
        (λ e.
          if-Refuses P (leb_ℤ units (pos 0)) _ _ (λ e'. inl (refl, refl, refl))
            (λ e'.
              if-Refuses P (ltb_ℤ curve0.t_units (floor_of v units)) _ _
                (λ f. inl (refl, refl, refl)) (λ f. tt)))

  plan_sell-Refuses :
      (curve0 : CurveSnapshot) (targets : ℤ × ℤ)
      → Refuses (IsRefusal v p) (plan_sell v p curve0 targets)
  unfolding plan_sell
  plan_sell-Refuses curve0 (units, amount) =
      >>=-Refuses (IsRefusal v p) (or_raise (sell_out curve0.s_lamports curve0.t_units amount)) _
        (or_raise-Refuses (IsRefusal v p) _) (λ gross0. tt)

  finish_sell-Refuses :
      (since : String → Option ℤ) (plan : SellPlan) (curve0 : CurveSnapshot) (found : Found)
      (latency : Decimal) (now : LedgerState)
      → Refuses (IsRefusal v p) (finish_sell v p since plan curve0 found latency now)
  unfolding finish_sell holding_at_confirming slippage_at_confirming
  finish_sell-Refuses since plan curve0 found latency now =
      let P = IsRefusal v p in
      let o = lookup p.request.mint now.positions in
      >>=-Refuses P (await_confirmation p false found) _
        (await_confirmation-Refuses v p false found)
        λ w.
          >>=-Refuses P (holding_at_confirming p plan o) _
            (if-Refuses P (ltb_ℤ (held_units o) plan.filled_units) _ _
              (λ e. inr (refl, refl, inl (refl, omega arith))) (λ e. tt))
            λ position.
              >>=-Refuses P (slippage_at_confirming v p plan w.0) _ (slippage w.0) λ out. tt
    where
      slippage : (c : CurveSnapshot) → Refuses (IsRefusal v p) (slippage_at_confirming v p plan c)
      slippage c =
          let P = IsRefusal v p in
          >>=-Refuses P (or_raise (sell_out c.s_lamports c.t_units plan.filled_units)) _
            (or_raise-Refuses P _)
            λ gross.
              if-Refuses P (ltb_ℤ (after_venue_fee v gross) plan.threshold) _ _
                (λ e. inr (
                  refl,
                  refl,
                  inr (refl, refl, over-ltb (after_venue_fee v gross) plan.threshold e),
                ))
                (λ e. tt)

  place_sell-Refuses :
      (since : String → Option ℤ) (curve0 : CurveSnapshot) (s : LedgerState) (found : Found)
      (latency : Decimal) (now : LedgerState)
      → Refuses (IsRefusal v p) (place_sell v p since curve0 s found latency now)
  unfolding place_sell
  place_sell-Refuses since curve0 s found latency now =
      let P = IsRefusal v p in
      >>=-Refuses P (sell_targets v p curve0 s) _ (sell_targets-Refuses curve0 s) λ targets.
        >>=-Refuses P (plan_sell v p curve0 targets) _ (plan_sell-Refuses curve0 targets)
          λ plan. finish_sell-Refuses since plan curve0 found latency now

  -- An order that the sizing or the confirmation of `place_buy` or `place_sell` refuses is refused in
  -- one of two ways: before it is written, with no order named and no fee; or at CONFIRMING, under
  -- its own order id, where the fee is exactly the network cost if the confirmed amount is below the
  -- quote's threshold, a slippage refusal whose transaction was sent, and 0 if it is not.
  pub place-IsRefusal :
      (since : String → Option ℤ) (size : ℤ) (curve0 : CurveSnapshot) (found : Found)
      (latency : Decimal) (now_ts : String) (s now : LedgerState) (r : Refusal)
      → (place_buy v p size curve0 found latency now_ts now ≡ refused r)
        ⊎ (place_sell v p since curve0 s found latency now ≡ refused r)
      → IsRefusal v p r
  place-IsRefusal since size curve0 found latency now_ts s now r (inl e) =
      subst (Refuses (IsRefusal v p)) e (place_buy-Refuses size curve0 found latency now_ts now)
  place-IsRefusal since size curve0 found latency now_ts s now r (inr e) =
      subst (Refuses (IsRefusal v p)) e (place_sell-Refuses since curve0 s found latency now)
