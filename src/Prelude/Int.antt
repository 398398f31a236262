-- ===== src/Prelude/Int.antt =====
-- Python's unbounded signed integers over the native numbers, with floor division.
use Prim.Native.Nat.{ℕ, suc, ◌+◌, ◌-◌, ◌*◌, ◌/◌, ◌≤◌}
use mathlib.Core.Path.{◌≡◌, ap}
use mathlib.Core.Bool.{Bool}
use native.Mathlib.Omega.{arith}
use native.Mathlib.Nat.{div-le_of_le-mul, mul-div_cancel}
use pump_grok.Prelude.Tests.{ltb, leb, if◌then◌else◌}

-- `negsuc n` is -(n + 1).
pub data ℤ : Type 0 where
  pos : ℕ → ℤ
  negsuc : ℕ → ℤ

abbrev pub pos_part : ℤ → ℕ
pos_part (pos n) = n
pos_part (negsuc n) = 0

abbrev pub neg_part : ℤ → ℕ
neg_part (pos n) = 0
neg_part (negsuc n) = suc n

-- a - b, as an integer.
abbrev pub sub_ℕ : ℕ → ℕ → ℤ
sub_ℕ a b = if leb b a then pos (a - b) else negsuc (b - a - 1)

infixl 65 ◌+ℤ◌ ◌-ℤ◌
infixl 70 ◌*ℤ◌
infix 50 ◌≤ℤ◌
unfoldable pub ◌+ℤ◌ : ℤ → ℤ → ℤ
a +ℤ b = sub_ℕ (pos_part a + pos_part b) (neg_part a + neg_part b)

unfoldable pub ◌-ℤ◌ : ℤ → ℤ → ℤ
a -ℤ b = sub_ℕ (pos_part a + neg_part b) (neg_part a + pos_part b)

unfoldable pub ◌*ℤ◌ : ℤ → ℤ → ℤ
a *ℤ b =
    sub_ℕ (pos_part a * pos_part b + neg_part a * neg_part b)
      (pos_part a * neg_part b + neg_part a * pos_part b)

-- `a // d` for a positive `d`: the quotient rounded down.
abbrev pub floor_div_pos : ℤ → ℕ → ℤ
floor_div_pos (pos n) d = pos (n / d)
floor_div_pos (negsuc n) d = negsuc (n / d)

-- Python's `a // b`. A zero divisor raises there; every use below is guarded by `0 < b`.
unfoldable pub floor_div : ℤ → ℤ → ℤ
unfolding ◌-ℤ◌
floor_div a (pos d) = floor_div_pos a d
floor_div a (negsuc d) = floor_div_pos (pos 0 -ℤ a) (suc d)

abbrev pub ◌≤ℤ◌ : ℤ → ℤ → Type 0
a ≤ℤ b = pos_part a + neg_part b ≤ pos_part b + neg_part a

abbrev pub ltb_ℤ : ℤ → ℤ → Bool
ltb_ℤ a b = ltb (pos_part a + neg_part b) (pos_part b + neg_part a)

abbrev pub leb_ℤ : ℤ → ℤ → Bool
leb_ℤ a b = leb (pos_part a + neg_part b) (pos_part b + neg_part a)

-- Python's `min(a, b)` and `max(a, b)`: the first argument on a tie.
unfoldable pub min_ℤ : ℤ → ℤ → ℤ
min_ℤ a b = if ltb_ℤ b a then b else a

unfoldable pub max_ℤ : ℤ → ℤ → ℤ
max_ℤ a b = if ltb_ℤ a b then b else a

pub +ℤ_parts :
    (a b : ℤ)
    → pos_part (a +ℤ b) + neg_part a + neg_part b ≡ neg_part (a +ℤ b) + pos_part a + pos_part b
unfolding ◌+ℤ◌
+ℤ_parts a b = ground arith

pub -ℤ_parts :
    (a b : ℤ)
    → pos_part (a -ℤ b) + neg_part a + pos_part b ≡ neg_part (a -ℤ b) + pos_part a + neg_part b
unfolding ◌-ℤ◌
-ℤ_parts a b = ground arith

pub eq_of_parts : (a b : ℤ) → pos_part a + neg_part b ≡ pos_part b + neg_part a → a ≡ b
eq_of_parts a b h = ground arith

pub min_ℤ-le_left : (a b : ℤ) → min_ℤ a b ≤ℤ a
unfolding min_ℤ
min_ℤ-le_left a b = ground arith

pub min_ℤ-le_right : (a b : ℤ) → min_ℤ a b ≤ℤ b
unfolding min_ℤ
min_ℤ-le_right a b = ground arith

pub max_ℤ-le_left : (a b : ℤ) → a ≤ℤ max_ℤ a b
unfolding max_ℤ
max_ℤ-le_left a b = ground arith

pub max_ℤ-le_right : (a b : ℤ) → b ≤ℤ max_ℤ a b
unfolding max_ℤ
max_ℤ-le_right a b = ground arith

pub max_ℤ-le : (a b c : ℤ) → a ≤ℤ c → b ≤ℤ c → max_ℤ a b ≤ℤ c
unfolding max_ℤ
max_ℤ-le a b c h k = ground arith

pub +ℤ_pos : (a b : ℕ) → pos a +ℤ pos b ≡ pos (a + b)
unfolding ◌+ℤ◌
+ℤ_pos a b = ground arith

pub -ℤ_pos : (a b : ℕ) → b ≤ a → pos a -ℤ pos b ≡ pos (a - b)
unfolding ◌-ℤ◌
-ℤ_pos a b h = ground arith

pub *ℤ_pos : (a b : ℕ) → pos a *ℤ pos b ≡ pos (a * b)
unfolding ◌*ℤ◌
*ℤ_pos a b = ground arith

-- A floor share `c * f // u` of a non-negative amount, for 0 ≤ f ≤ u and a positive u, lies
-- between zero and the amount.
pub floor_div-share_bounds :
    (c f u : ℤ)
    → pos 0 ≤ℤ c
    → pos 0 ≤ℤ f
    → pos 1 ≤ℤ u
    → f ≤ℤ u
    → (pos 0 ≤ℤ floor_div (c *ℤ f) u) × (floor_div (c *ℤ f) u ≤ℤ c)
unfolding floor_div
floor_div-share_bounds (pos c) (pos f) (pos u) hc hf hu le =
    rw *ℤ_pos (omega arith, omega (arith, div-le_of_le-mul u {m = c * f} {n = c} (grind arith)))
floor_div-share_bounds (negsuc c) f u hc hf hu le = absurd (omega arith)
floor_div-share_bounds (pos c) (negsuc f) u hc hf hu le = absurd (omega arith)
floor_div-share_bounds (pos c) (pos f) (negsuc u) hc hf hu le = absurd (omega arith)

pub floor_div_nonneg :
    (a b u : ℤ) → pos 0 ≤ℤ a → pos 0 ≤ℤ b → pos 1 ≤ℤ u → pos 0 ≤ℤ floor_div (a *ℤ b) u
unfolding floor_div
floor_div_nonneg (pos a) (pos b) (pos u) ha hb hu = rw *ℤ_pos (omega arith)
floor_div_nonneg (negsuc a) b u ha hb hu = absurd (omega arith)
floor_div_nonneg (pos a) (negsuc b) u ha hb hu = absurd (omega arith)
floor_div_nonneg (pos a) (pos b) (negsuc u) ha hb hu = absurd (omega arith)

-- No part of an amount is not negative.
pub floor_div-zero : (a u : ℤ) → pos 1 ≤ℤ u → pos 0 ≤ℤ floor_div (a *ℤ pos 0) u
unfolding floor_div ◌*ℤ◌ ◌-ℤ◌
floor_div-zero (pos a) (pos u) h = ground arith
floor_div-zero (negsuc a) (pos u) h = ground arith
floor_div-zero a (negsuc u) h = absurd (omega arith)

-- The floor is the least bound.
pub floor_div-le :
    (a b u v : ℤ)
    → pos 0 ≤ℤ a
    → pos 0 ≤ℤ b
    → pos 1 ≤ℤ u
    → pos 0 ≤ℤ v
    → a *ℤ b ≤ℤ u *ℤ v
    → floor_div (a *ℤ b) u ≤ℤ v
unfolding floor_div
floor_div-le (pos a) (pos b) (pos u) (pos v) ha hb hu hv h =
    let m = rw (*ℤ_pos a b, *ℤ_pos u v) at h in
    rw *ℤ_pos (omega (arith, div-le_of_le-mul u {m = a * b} {n = v} (omega (arith, m))))
floor_div-le (negsuc a) b u v ha hb hu hv h = absurd (omega arith)
floor_div-le (pos a) (negsuc b) u v ha hb hu hv h = absurd (omega arith)
floor_div-le (pos a) (pos b) (negsuc u) v ha hb hu hv h = absurd (omega arith)
floor_div-le (pos a) (pos b) (pos u) (negsuc v) ha hb hu hv h = absurd (omega arith)

pub *ℤ_comm : (a b : ℤ) → a *ℤ b ≡ b *ℤ a
unfolding ◌*ℤ◌
*ℤ_comm a b = ground arith

-- The share of the whole is the amount.
pub floor_div-share_whole : (c u : ℤ) → pos 0 ≤ℤ c → pos 1 ≤ℤ u → floor_div (c *ℤ u) u ≡ c
unfolding floor_div
floor_div-share_whole (pos c) (pos u) hc hu = rw *ℤ_pos (ap pos (mul-div_cancel c (omega arith)))
floor_div-share_whole (negsuc c) u hc hu = absurd (omega arith)
floor_div-share_whole (pos c) (negsuc u) hc hu = absurd (omega arith)

div-below : (a b d : ℕ) → b ≤ d → suc a * b ≤ suc a * d
div-below a b d h = grind arith

-- A share of at most the whole cannot leave a positive rest of an amount that is not positive.
pub share-rest_pos :
    (x b : ℤ)
    → pos 0 ≤ℤ b
    → b ≤ℤ pos 10_000
    → pos 1 ≤ℤ x -ℤ floor_div (x *ℤ b) (pos 10_000)
    → pos 1 ≤ℤ x
unfolding floor_div ◌-ℤ◌ ◌*ℤ◌
share-rest_pos (pos x) (pos b) hb hw h = ground arith
share-rest_pos (negsuc x) (pos b) hb hw h = ground (arith, div-below x b 10_000)
share-rest_pos x (negsuc b) hb hw h = absurd (omega arith)

pub ruleset int_laws = (arith, +ℤ_parts, -ℤ_parts, eq_of_parts)
