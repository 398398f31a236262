-- ===== src/Execution/Tests.antt =====
-- The curve and the fees at the launch reserves of a pool: 30 SOL against 1,073,000,000 tokens.
use pump_grok.Prelude.{◌≡◌, refl, some, arith}
use pump_grok.Prelude.Int.{ℤ, pos, ◌+ℤ◌, ◌-ℤ◌, ◌*ℤ◌, ◌≤ℤ◌, floor_div}
use pump_grok.Execution.Curve.{buy_out, sell_out}
use pump_grok.Execution.Curve.Bounds.{IsOut, buy_out-IsOut}
use pump_grok.Execution.Fees.{
  IsValid, default_fees, venue_fee, network_cost, buy_net, buy_debit, sell_proceeds,
}
use pump_grok.Execution.RoundTrip.{round_trip_loss}

abbrev sol : ℤ
sol = pos 30_000_000_000

abbrev tokens : ℤ
tokens = pos 1_073_000_000_000_000

abbrev spent : ℤ
spent = pos 1_000_000_000

abbrev net : ℤ
net = pos 990_000_000

abbrev bought : ℤ
bought = pos 34_277_831_558_567

default_fees-IsValid : IsValid default_fees
default_fees-IsValid = omega arith

bought-eq : buy_out sol tokens net ≡ some bought
unfolding buy_out floor_div ◌*ℤ◌ ◌+ℤ◌
bought-eq = refl

sold-eq : sell_out (sol +ℤ net) (tokens -ℤ bought) bought ≡ some (pos 989_999_999)
unfolding sell_out floor_div ◌*ℤ◌ ◌+ℤ◌ ◌-ℤ◌
sold-eq = refl

buy_out-IsOut_example : IsOut sol tokens net bought
buy_out-IsOut_example = buy_out-IsOut sol tokens net bought bought-eq

round_trip_loss_example :
    sell_proceeds default_fees (pos 989_999_999)
      +ℤ network_cost default_fees
      +ℤ network_cost default_fees
    ≤ℤ buy_debit default_fees spent
unfolding buy_net venue_fee floor_div ◌*ℤ◌ ◌-ℤ◌
round_trip_loss_example =
    round_trip_loss default_fees sol tokens spent bought (pos 989_999_999) default_fees-IsValid
      (omega arith) bought-eq sold-eq
