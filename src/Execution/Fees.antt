-- ===== src/Execution/Fees.antt =====
-- src/pumpgrok/execution/fees.py: the integer fee model of a paper fill.
use pump_grok.Prelude.{arith}
use pump_grok.Prelude.Int.{
  ℤ, pos, ◌+ℤ◌, ◌-ℤ◌, ◌*ℤ◌, ◌≤ℤ◌, floor_div, floor_div-share_bounds, floor_div_nonneg, int_laws,
}

pub record FeeModel : Type 0 where
  pub venue_fee_bps : ℤ
  pub base_fee_lamports : ℤ
  pub compute_units : ℤ
  pub micro_lamports_per_cu : ℤ

abbrev pub default_fees : FeeModel
default_fees = record {
  venue_fee_bps = pos 100;
  base_fee_lamports = pos 5_000;
  compute_units = pos 200_000;
  micro_lamports_per_cu = pos 20_000;
}

unfoldable pub venue_fee : FeeModel → ℤ → ℤ
venue_fee m size_lamports = floor_div (size_lamports *ℤ m.venue_fee_bps) (pos 10_000)

unfoldable pub priority_fee : FeeModel → ℤ
priority_fee m = floor_div (m.micro_lamports_per_cu *ℤ m.compute_units) (pos 1_000_000)

unfoldable pub network_cost : FeeModel → ℤ
network_cost m = m.base_fee_lamports +ℤ priority_fee m

unfoldable pub buy_net : FeeModel → ℤ → ℤ
buy_net m filled_lamports = filled_lamports -ℤ venue_fee m filled_lamports

unfoldable pub buy_debit : FeeModel → ℤ → ℤ
buy_debit m filled_lamports = filled_lamports +ℤ network_cost m

unfoldable pub sell_proceeds : FeeModel → ℤ → ℤ
sell_proceeds m gross_lamports = gross_lamports -ℤ venue_fee m gross_lamports -ℤ network_cost m

-- The rates are what they name: a fraction of the size, and costs.
pub record IsValid (m : FeeModel) : Type 0 where
  pub bps_nonneg : pos 0 ≤ℤ m.venue_fee_bps
  pub bps_whole : m.venue_fee_bps ≤ℤ pos 10_000
  pub base_nonneg : pos 0 ≤ℤ m.base_fee_lamports
  pub units_nonneg : pos 0 ≤ℤ m.compute_units
  pub price_nonneg : pos 0 ≤ℤ m.micro_lamports_per_cu

-- The venue fee is a part of the size.
pub venue_fee_bounds :
    (m : FeeModel) (size : ℤ)
    → IsValid m
    → pos 0 ≤ℤ size
    → (pos 0 ≤ℤ venue_fee m size) × (venue_fee m size ≤ℤ size)
unfolding venue_fee
venue_fee_bounds m size v h =
    floor_div-share_bounds size m.venue_fee_bps (pos 10_000) h v.bps_nonneg (omega arith)
      v.bps_whole

pub network_cost_nonneg : (m : FeeModel) → IsValid m → pos 0 ≤ℤ network_cost m
unfolding network_cost priority_fee
network_cost_nonneg m v = omega (
  int_laws,
  floor_div_nonneg m.micro_lamports_per_cu m.compute_units (pos 1_000_000) v.price_nonneg
      v.units_nonneg (omega arith),
  v.base_nonneg,
)
