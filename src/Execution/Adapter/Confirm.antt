-- ===== src/Execution/Adapter/Confirm.antt =====
-- `_await_confirmation` of src/pumpgrok/execution/paper_adapter: the checks between the latency sleep
-- and the fill.
use pump_grok.Prelude.{
  Bool, false, not, ◌&&◌, String, Option, none, some, if◌then◌else◌, ◌≡◌, refl, arith, inl, inr,
  Bool-cases, ap, subst,
}
use pump_grok.Prelude.Int.{ℤ}
use pump_grok.Core.Order.{is_buy_side}
use pump_grok.Execution.Adapter.Model.{
  CurveSnapshot, Placing, Staged, done, refused, ◌>>=◌, >>=-eq-done, done-injective, at_confirming,
}

-- What the stages find when the sleep ends: whether it overran, whether a cancel landed, the
-- curve read, the engine's answer at CONFIRMING (its refusal's reason, or the size that it gives),
-- and whether the seeded draw drops the transaction.
pub record Found : Type 0 where
  pub overran : Bool
  pub cancelled : Bool
  pub curve : Option CurveSnapshot
  pub refusal : Option String
  pub size_lamports : Option ℤ
  pub dropped : Bool

unfoldable pub confirm_latency : Placing → Found → Staged (Unit {0})
confirm_latency p f =
    if f.overran then refused (at_confirming p "confirmation_timeout") else done tt

unfoldable pub confirm_cancel_check : Placing → Found → Staged (Unit {0})
confirm_cancel_check p f = if f.cancelled then refused (at_confirming p "cancelled") else done tt

unfoldable pub usable_curve : Placing → Bool → Option CurveSnapshot → Staged CurveSnapshot
usable_curve p forbid_complete none = refused (at_confirming p "no_reserves")
usable_curve p forbid_complete (some c) =
    if is_buy_side p.request.side && not c.price_allowed
    then refused (at_confirming p "data_unavailable")
    else if forbid_complete && c.complete
    then refused (at_confirming p "post_graduation_no_reserves")
    else done c

unfoldable pub confirm_recheck : Placing → Found → Option String → Staged (Option ℤ)
confirm_recheck p f (some reason) = refused (at_confirming p reason)
confirm_recheck p f none =
    if f.dropped then refused (at_confirming p "tx_dropped") else done f.size_lamports

-- The reserves at CONFIRMING and the cap that the engine recomputed.
unfoldable pub await_confirmation : Placing → Bool → Found → Staged (CurveSnapshot × Option ℤ)
unfolding confirm_latency confirm_cancel_check usable_curve confirm_recheck
await_confirmation p forbid_complete f = do
  _ ← confirm_latency p f
  _ ← confirm_cancel_check p f
  curve1 ← usable_curve p forbid_complete f.curve
  cap ← confirm_recheck p f f.refusal
  done (curve1, cap)

-- What lets an order go on to its fill.
pub record IsAwaited (p : Placing) (forbid_complete : Bool) (f : Found) (curve1 : CurveSnapshot)
    : Type 0 where
  pub in_time : f.overran ≡ false
  pub not_cancelled : f.cancelled ≡ false
  pub read : f.curve ≡ some curve1
  pub not_refused : f.refusal ≡ none
  pub not_dropped : f.dropped ≡ false
  pub buy_priced : is_buy_side p.request.side && not curve1.price_allowed ≡ false
  pub not_graduated : forbid_complete && curve1.complete ≡ false

confirm_latency_lem :
    (p : Placing) (f : Found) (u : Unit {0}) → confirm_latency p f ≡ done u → f.overran ≡ false
unfolding confirm_latency
confirm_latency_lem p f u h = ground arith

confirm_cancel_check_lem :
    (p : Placing) (f : Found) (u : Unit {0})
    → confirm_cancel_check p f ≡ done u
    → f.cancelled ≡ false
unfolding confirm_cancel_check
confirm_cancel_check_lem p f u h = ground arith

usable_curve_lem :
    (p : Placing) (b : Bool) (o : Option CurveSnapshot) (curve1 : CurveSnapshot)
    → usable_curve p b o ≡ done curve1
    → (o ≡ some curve1)
      × (is_buy_side p.request.side && not curve1.price_allowed ≡ false)
      × (b && curve1.complete ≡ false)
unfolding usable_curve
usable_curve_lem p b none curve1 h = cc
usable_curve_lem p b (some c) curve1 h =
    elim (Bool-cases (is_buy_side p.request.side && not c.price_allowed)) [
      | inl e ↦ let stuck = rw e at h in cc
      | inr e ↦ elim (Bool-cases (b && c.complete)) [
        | inl g ↦ let stuck = rw (e, g) at h in cc
        | inr g ↦
            let same = done-injective c curve1 (rw (e, g) at h) in
            (
              cc,
              subst (λ x. is_buy_side p.request.side && not x.price_allowed ≡ false) same e,
              subst (λ x. b && x.complete ≡ false) same g,
            )
      ]
    ]

confirm_recheck_lem :
    (p : Placing) (f : Found) (o : Option String) (cap : Option ℤ)
    → confirm_recheck p f o ≡ done cap
    → (o ≡ none) × (f.dropped ≡ false) × (f.size_lamports ≡ cap)
unfolding confirm_recheck
confirm_recheck_lem p f (some reason) cap h = cc
confirm_recheck_lem p f none cap h = elim (Bool-cases f.dropped) [
  | inl e ↦ let stuck = rw e at h in cc
  | inr e ↦ (refl, e, done-injective _ cap (rw e at h))
]

-- An order passes exactly with the curve that was read and the cap that the engine gave.
pub await_confirmation-IsAwaited :
    (p : Placing) (b : Bool) (f : Found) (curve1 : CurveSnapshot) (cap : Option ℤ)
    → await_confirmation p b f ≡ done (curve1, cap)
    → IsAwaited p b f curve1 × (f.size_lamports ≡ cap)
unfolding await_confirmation
await_confirmation-IsAwaited p b f curve1 cap h =
    let (u, late, h1) = >>=-eq-done (confirm_latency p f) _ h in
    let (w, cancel, h2) = >>=-eq-done (confirm_cancel_check p f) _ h1 in
    let (c, usable, h3) = >>=-eq-done (usable_curve p b f.curve) _ h2 in
    let (size, checked, h4) = >>=-eq-done (confirm_recheck p f f.refusal) _ h3 in
    let same = done-injective (c, size) (curve1, cap) h4 in
    let (read, priced, open_curve) =
      usable_curve_lem p b f.curve curve1
        (subst (λ x. usable_curve p b f.curve ≡ done x) (ap (λ x. x.0) same) usable) in
    let (allowed, kept, sized) =
      confirm_recheck_lem p f f.refusal cap
        (subst (λ x. confirm_recheck p f f.refusal ≡ done x) (ap (λ x. x.1) same) checked) in
    (
      record {
        in_time = confirm_latency_lem p f u late;
        not_cancelled = confirm_cancel_check_lem p f w cancel;
        read = read;
        not_refused = allowed;
        not_dropped = kept;
        buy_priced = priced;
        not_graduated = open_curve;
      },
      sized,
    )
