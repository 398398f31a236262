-- ===== src/Execution/Curve/Bounds.antt =====
-- The curve never pays out a whole reserve, and its product never falls.
use pump_grok.Prelude.{
  ℕ, ◌+◌, ◌-◌, ◌*◌, ◌/◌, ◌≤◌, ◌<◌, ◌≡◌, some, some-injective, ◌⊎◌, inl, inr, subst, sym, arith,
}
use pump_grok.Prelude.Int.{
  ℤ, pos, negsuc, ◌+ℤ◌, ◌-ℤ◌, ◌*ℤ◌, ◌≤ℤ◌, *ℤ_pos, *ℤ_comm, +ℤ_pos, -ℤ_pos, floor_div, int_laws,
}
use native.Mathlib.Nat.{div-mul-le_self, div-lt_iff_lt-mul}
use pump_grok.Execution.Curve.{>>=-eq-some, buy_out, sell_out, post_buy, post_sell}

-- What `y` has to satisfy to be the floor of `t * x / (s + x)`.
pub record IsOut (s t x y : ℤ) : Type 0 where
  pub reserve_in : pos 1 ≤ℤ s
  pub reserve_out : pos 1 ≤ℤ t
  pub paid : pos 1 ≤ℤ x
  pub nonneg : pos 0 ≤ℤ y
  pub below : y +ℤ pos 1 ≤ℤ t
  pub floored : y *ℤ (s +ℤ x) ≤ℤ t *ℤ x
  pub product : s *ℤ t ≤ℤ (s +ℤ x) *ℤ (t -ℤ y)

cover : (s x y r : ℕ) → y * (s + x) ≤ (y + r) * x → s * (y + r) ≤ (s + x) * r
cover s x y r h = omega arith

out_below : (s t x : ℕ) → 0 < s → 0 < t → (t * x) / (s + x) < t
out_below s t x hs ht =
    (div-lt_iff_lt-mul {k = s + x} {x = t * x} {y = t} (omega arith)).1 (grind arith)

out_product : (s t x y : ℕ) → y ≤ t → y * (s + x) ≤ t * x → s * t ≤ (s + x) * (t - y)
out_product s t x y le low =
    let e : y + (t - y) ≡ t = omega arith in
    subst (λ n. s * n ≤ (s + x) * (t - y)) e
      (cover s x y (t - y) (subst (λ n. y * (s + x) ≤ n * x) (sym e) low))

floor-IsOut :
    (s t x : ℤ) → pos 1 ≤ℤ s → pos 1 ≤ℤ t → pos 1 ≤ℤ x → IsOut s t x (floor_div (t *ℤ x) (s +ℤ x))
unfolding floor_div
floor-IsOut (pos s) (pos t) (pos x) hs ht hx =
    let y = (t * x) / (s + x) in
    let below = out_below s t x (omega arith) (omega arith) in
    let product = out_product s t x y (omega arith) (div-mul-le_self (t * x) (s + x)) in
    rw (*ℤ_pos t x, +ℤ_pos s x)
      (record {
        reserve_in = hs;
        reserve_out = ht;
        paid = hx;
        nonneg = omega arith;
        below = omega (int_laws, below);
        floored =
            rw (+ℤ_pos s x, *ℤ_pos y (s + x), *ℤ_pos t x)
              (omega (arith, div-mul-le_self (t * x) (s + x)));
        product =
            rw (+ℤ_pos s x, -ℤ_pos t y (omega arith), *ℤ_pos s t, *ℤ_pos (s + x) (t - y))
              (omega (arith, product));
      })
floor-IsOut (negsuc s) t x hs ht hx = absurd (omega arith)
floor-IsOut (pos s) (negsuc t) x hs ht hx = absurd (omega arith)
floor-IsOut (pos s) (pos t) (negsuc x) hs ht hx = absurd (omega arith)

-- A buy that is not refused has positive reserves and payment, receives at least nothing and
-- less than the whole token reserve, and the reserves' product does not fall.
pub buy_out-IsOut : (s t x y : ℤ) → buy_out s t x ≡ some y → IsOut s t x y
unfolding buy_out
buy_out-IsOut s t x y e = subst (IsOut s t x) value (floor-IsOut s t x hs ht hx)
  where
    hs : pos 1 ≤ℤ s
    hs = ground arith

    ht : pos 1 ≤ℤ t
    ht = ground arith

    hx : pos 1 ≤ℤ x
    hx = ground arith

    value : floor_div (t *ℤ x) (s +ℤ x) ≡ y
    value = ground arith

pub sell_out_value : (s t i y : ℤ) → sell_out s t i ≡ some y → floor_div (s *ℤ i) (t +ℤ i) ≡ y
unfolding sell_out
sell_out_value s t i y e = ground arith

-- A sell is the same formula with the reserves' roles exchanged.
pub sell_out-IsOut : (s t i y : ℤ) → sell_out s t i ≡ some y → IsOut t s i y
unfolding sell_out
sell_out-IsOut s t i y e =
    subst (IsOut t s i) (sell_out_value s t i y e) (floor-IsOut t s i ht hs hi)
  where
    hs : pos 1 ≤ℤ s
    hs = ground arith

    ht : pos 1 ≤ℤ t
    ht = ground arith

    hi : pos 1 ≤ℤ i
    hi = ground arith

-- What a fill keeps of the reserves: both stay positive, and their product does not fall.
abbrev pub Keeps : ℤ → ℤ → ℤ × ℤ → Type 0
Keeps s t (s', t') = (pos 1 ≤ℤ s') × (pos 1 ≤ℤ t') × (s *ℤ t ≤ℤ s' *ℤ t')

-- A buy or a sell that is not refused keeps both reserves positive and does not lower their
-- product: rounding always goes to the curve.
pub post-Keeps :
    (s t x : ℤ) (r : ℤ × ℤ) → (post_buy s t x ≡ some r) ⊎ (post_sell s t x ≡ some r) → Keeps s t r
unfolding post_buy post_sell
post-Keeps s t x r (inl e) =
    let (y, out, same) = >>=-eq-some (buy_out s t x) _ e in
    let o = buy_out-IsOut s t x y out in
    subst (Keeps s t) (some-injective _ r same)
      (omega (int_laws, o.reserve_in, o.paid), omega (int_laws, o.below), o.product)
post-Keeps s t x r (inr e) =
    let (y, out, same) = >>=-eq-some (sell_out s t x) _ e in
    let o = sell_out-IsOut s t x y out in
    subst (Keeps s t) (some-injective _ r same) (
      omega (int_laws, o.below),
      omega (int_laws, o.reserve_in, o.paid),
      rw (*ℤ_comm s t, *ℤ_comm (s -ℤ y) (t +ℤ x)) o.product,
    )
