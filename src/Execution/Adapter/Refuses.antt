-- ===== src/Execution/Adapter/Refuses.antt =====
-- The shape of a refusal, through the stages and the confirmation: src/pumpgrok/execution/paper_adapter.
use pump_grok.Prelude.{
  Bool, true, false, not, ◌&&◌, String, Option, none, some, ◌≡◌, refl, ◌⊎◌, inl, inr, arith,
  if◌then◌else◌,
}
use pump_grok.Prelude.Int.{ℤ, pos, ◌+ℤ◌, ◌≤ℤ◌, ltb_ℤ, leb_ℤ}
use pump_grok.Core.Order.{is_buy_side}
use pump_grok.Execution.Fees.{network_cost}
use pump_grok.Execution.Adapter.Model.{
  CurveSnapshot, Venue, Placing, Refusal, Staged, done, refused, raised, ◌>>=◌, or_raise,
}
use pump_grok.Execution.Adapter.Confirm.{
  Found, confirm_latency, confirm_cancel_check, usable_curve, confirm_recheck, await_confirmation,
}

-- The network cost is the fee where the confirmed amount is below the threshold, a slippage refusal,
-- whose transaction was sent; no other refusal has a fee.
abbrev pub FeesFit : Venue → Refusal → Type 0
FeesFit v r =
    ((r.fees ≡ pos 0) × (r.threshold ≤ℤ r.confirm_out))
    ⊎ ((r.reason ≡ "slippage_exceeded")
        × (r.fees ≡ network_cost v.fees)
        × (r.confirm_out +ℤ pos 1 ≤ℤ r.threshold))

-- A refusal before the order is written names no order and costs nothing; one at CONFIRMING names
-- the order.
abbrev pub IsRefusal : Venue → Placing → Refusal → Type 0
IsRefusal v p r =
    ((r.stage ≡ "ACCEPTED") × (r.order_id ≡ none) × (r.fees ≡ pos 0))
    ⊎ ((r.stage ≡ "CONFIRMING") × (r.order_id ≡ some p.order_id) × FeesFit v r)

-- A stage's refusal, if it refuses, satisfies `P`.
abbrev pub Refuses {ℓ} : {A : Type ℓ} → (Refusal → Type 0) → Staged A → Type 0
Refuses P (done a) = Unit
Refuses P (refused r) = P r
Refuses P raised = Unit

pub >>=-Refuses {ℓ κ} :
    {A : Type ℓ} {B : Type κ} (P : Refusal → Type 0) (stage : Staged A) (rest : A → Staged B)
    → Refuses P stage
    → ((a : A) → Refuses P (rest a))
    → Refuses P (stage >>= rest)
>>=-Refuses P (done a) rest h k = k a
>>=-Refuses P (refused r) rest h k = h
>>=-Refuses P raised rest h k = tt

pub or_raise-Refuses {ℓ} :
    {A : Type ℓ} (P : Refusal → Type 0) (o : Option A) → Refuses P (or_raise o)
or_raise-Refuses P none = tt
or_raise-Refuses P (some a) = tt

pub if-Refuses {ℓ} :
    {A : Type ℓ} (P : Refusal → Type 0) (b : Bool) (x y : Staged A)
    → (b ≡ true → Refuses P x)
    → (b ≡ false → Refuses P y)
    → Refuses P (if b then x else y)
if-Refuses P true x y h k = h refl
if-Refuses P false x y h k = k refl

pub over-leb : (a b : ℤ) → leb_ℤ a b ≡ false → b +ℤ pos 1 ≤ℤ a
unfolding ◌+ℤ◌
over-leb a b e = ground arith

pub over-ltb : (a b : ℤ) → ltb_ℤ a b ≡ true → a +ℤ pos 1 ≤ℤ b
unfolding ◌+ℤ◌
over-ltb a b e = ground arith

module _ (v : Venue) (p : Placing) where
  pub await_confirmation-Refuses :
      (b : Bool) (f : Found) → Refuses (IsRefusal v p) (await_confirmation p b f)
  unfolding await_confirmation
  await_confirmation-Refuses b f =
      let P = IsRefusal v p in
      >>=-Refuses P (confirm_latency p f) _ late λ u.
        >>=-Refuses P (confirm_cancel_check p f) _ cancelled λ w.
          >>=-Refuses P (usable_curve p b f.curve) _ (usable f.curve)
            λ c. >>=-Refuses P (confirm_recheck p f f.refusal) _ (recheck f.refusal) λ cap. tt
    where
      late : Refuses (IsRefusal v p) (confirm_latency p f)
      late =
          unfold confirm_latency in
          if-Refuses (IsRefusal v p) f.overran _ _ (λ e. inr (refl, refl, inl (refl, omega arith)))
            (λ e. tt)

      cancelled : Refuses (IsRefusal v p) (confirm_cancel_check p f)
      cancelled =
          unfold confirm_cancel_check in
          if-Refuses (IsRefusal v p) f.cancelled _ _
            (λ e. inr (refl, refl, inl (refl, omega arith))) (λ e. tt)

      usable : (o : Option CurveSnapshot) → Refuses (IsRefusal v p) (usable_curve p b o)
      usable none = unfold usable_curve in inr (refl, refl, inl (refl, omega arith))
      usable (some c) =
          unfold usable_curve in
          if-Refuses (IsRefusal v p) (is_buy_side p.request.side && not c.price_allowed) _ _
            (λ e. inr (refl, refl, inl (refl, omega arith)))
            (λ e.
              if-Refuses (IsRefusal v p) (b && c.complete) _ _
                (λ e'. inr (refl, refl, inl (refl, omega arith))) (λ e'. tt))

      recheck : (o : Option String) → Refuses (IsRefusal v p) (confirm_recheck p f o)
      recheck none =
          unfold confirm_recheck in
          if-Refuses (IsRefusal v p) f.dropped _ _ (λ e. inr (refl, refl, inl (refl, omega arith)))
            (λ e. tt)
      recheck (some reason) = unfold confirm_recheck in inr (refl, refl, inl (refl, omega arith))
