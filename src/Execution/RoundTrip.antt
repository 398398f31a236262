-- ===== src/Execution/RoundTrip.antt =====
-- A buy that is sold back at once on the curve it left: the desk cannot come out ahead.
use pump_grok.Prelude.{◌≡◌, some, subst, arith}
use pump_grok.Prelude.Int.{ℤ, pos, ◌+ℤ◌, ◌-ℤ◌, ◌*ℤ◌, ◌≤ℤ◌, floor_div-le, *ℤ_comm, int_laws}
use pump_grok.Execution.Curve.{buy_out, sell_out}
use pump_grok.Execution.Curve.Bounds.{buy_out-IsOut, sell_out-IsOut, sell_out_value}
use pump_grok.Execution.Fees.{
  FeeModel, IsValid, buy_net, buy_debit, sell_proceeds, venue_fee_bounds, network_cost,
}

-- Selling back what a buy of `x` gave, at the reserves after it, returns at most `x`.
pub sell_back :
    (s t x y z : ℤ) → buy_out s t x ≡ some y → sell_out (s +ℤ x) (t -ℤ y) y ≡ some z → z ≤ℤ x
sell_back s t x y z e f =
    let o = buy_out-IsOut s t x y e in
    let whole : t -ℤ y +ℤ y ≡ t = omega int_laws in
    let cover : (s +ℤ x) *ℤ y ≤ℤ (t -ℤ y +ℤ y) *ℤ x = rw (whole, *ℤ_comm (s +ℤ x) y) o.floored in
    subst (λ n. n ≤ℤ x) (sell_out_value (s +ℤ x) (t -ℤ y) y z f)
      (floor_div-le (s +ℤ x) y (t -ℤ y +ℤ y) x (omega (int_laws, o.reserve_in, o.paid)) o.nonneg
        (rw whole o.reserve_out) (omega (arith, o.paid)) cover)

sell_out_nonneg : (s t i z : ℤ) → sell_out s t i ≡ some z → pos 0 ≤ℤ z
sell_out_nonneg s t i z f = (sell_out-IsOut s t i z f).nonneg

buy_net-le : (m : FeeModel) (size : ℤ) → IsValid m → pos 0 ≤ℤ size → buy_net m size ≤ℤ size
unfolding buy_net
buy_net-le m size v h = omega (int_laws, venue_fee_bounds m size v h)

-- Under a valid fee model, take a buy fill of a non-negative size whose tokens are all sold back
-- on the curve that it left. The cash credited for the sale, with the network costs of both
-- transactions, is at most the cash debited for the buy.
pub round_trip_loss :
    (m : FeeModel) (s t size y z : ℤ)
    → IsValid m
    → pos 0 ≤ℤ size
    → buy_out s t (buy_net m size) ≡ some y
    → sell_out (s +ℤ buy_net m size) (t -ℤ y) y ≡ some z
    → sell_proceeds m z +ℤ network_cost m +ℤ network_cost m ≤ℤ buy_debit m size
unfolding buy_debit sell_proceeds
round_trip_loss m s t size y z v h e f =
    let back = sell_back s t (buy_net m size) y z e f in
    let net = buy_net-le m size v h in
    let taken = venue_fee_bounds m z v (sell_out_nonneg _ _ y z f) in
    omega (int_laws, back, net, taken)
