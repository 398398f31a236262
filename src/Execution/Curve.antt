-- ===== src/Execution/Curve.antt =====
-- src/pumpgrok/execution/curve_math.py: the integer curve on virtual reserves. `none` is the
-- `ValueError` of a guard.
pub mod Bounds
use pump_grok.Prelude.{Bool, ◌≡◌, refl, Option, none, some, ◌||◌, if◌then◌else◌}
use pump_grok.Prelude.Int.{ℤ, pos, ◌+ℤ◌, ◌-ℤ◌, ◌*ℤ◌, leb_ℤ, floor_div}

infixl 5 ◌>>=◌
abbrev pub ◌>>=◌ {ℓ κ} : {A : Type ℓ} {B : Type κ} → Option A → (A → Option B) → Option B
none >>= f = none
some a >>= f = f a

pub >>=-eq-some {ℓ κ} :
    {A : Type ℓ} {B : Type κ} (first : Option A) (next : A → Option B) {last : B}
    → first >>= next ≡ some last
    → (middle : A) × (first ≡ some middle) × (next middle ≡ some last)
>>=-eq-some none next eq = cc
>>=-eq-some (some middle) next eq = (middle, refl, eq)

unfoldable pub buy_out : ℤ → ℤ → ℤ → Option ℤ
buy_out s_lamports t_units x_lamports =
    if leb_ℤ s_lamports (pos 0) || leb_ℤ t_units (pos 0)
    then none
    else if leb_ℤ x_lamports (pos 0)
    then none
    else some (floor_div (t_units *ℤ x_lamports) (s_lamports +ℤ x_lamports))

unfoldable pub sell_out : ℤ → ℤ → ℤ → Option ℤ
sell_out s_lamports t_units t_units_in =
    if leb_ℤ s_lamports (pos 0) || leb_ℤ t_units (pos 0)
    then none
    else if leb_ℤ t_units_in (pos 0)
    then none
    else some (floor_div (s_lamports *ℤ t_units_in) (t_units +ℤ t_units_in))

-- The reserves after a buy, and after a sell.
unfoldable pub post_buy : ℤ → ℤ → ℤ → Option (ℤ × ℤ)
post_buy s_lamports t_units x_lamports = do
  out ← buy_out s_lamports t_units x_lamports
  some (s_lamports +ℤ x_lamports, t_units -ℤ out)

unfoldable pub post_sell : ℤ → ℤ → ℤ → Option (ℤ × ℤ)
post_sell s_lamports t_units t_units_in = do
  out ← sell_out s_lamports t_units t_units_in
  some (s_lamports -ℤ out, t_units +ℤ t_units_in)
