-- ===== src/Prelude/Decimal.antt =====
-- A finite Python Decimal: `coefficient` times ten to the power of minus `places`.
use Prim.Native.Nat.{ℕ, ◌^◌}
use mathlib.Core.Bool.{Bool}
use pump_grok.Prelude.Tests.{if◌then◌else◌}
use pump_grok.Prelude.Int.{ℤ, pos, ◌*ℤ◌, ltb_ℤ}

pub record Decimal : Type 0 where
  pub coefficient : ℤ
  pub places : ℕ

abbrev pub zero_decimal : Decimal
zero_decimal = record { coefficient = pos 0; places = 0 }

-- `a < b`, which Python compares exactly.
unfoldable pub lt_decimal : Decimal → Decimal → Bool
lt_decimal a b = ltb_ℤ (a.coefficient *ℤ pos (10 ^ b.places)) (b.coefficient *ℤ pos (10 ^ a.places))

-- `max(a, b)`: the first argument on a tie.
unfoldable pub max_decimal : Decimal → Decimal → Decimal
max_decimal a b = if lt_decimal a b then b else a
