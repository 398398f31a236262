-- ===== src/Risk/Engine/Inversion.antt =====
-- What a walk that passes says of its steps.
use pump_grok.Prelude.{◌≡◌, refl, Bool, true, false, List, [], ◌∷◌, ◌++◌}
use pump_grok.Risk.Engine.Model.{Engine, Ask, Walk, Outcome, pass, fail, corrupt, ◌>>=◌, refuse_if}
use pump_grok.Risk.Engine.Vocabulary.{Step, Reason}
use pump_grok.Risk.Engine.Walk.{run_step, skip_step, walk_steps}

pub >>=-eq-pass {ℓ κ} :
    {A : Type ℓ} {B : Type κ} (first : Outcome A) (next : A → Outcome B) {last : B}
    → first >>= next ≡ pass last
    → (middle : A) × (first ≡ pass middle) × (next middle ≡ pass last)
>>=-eq-pass (fail r w) next eq = cc
>>=-eq-pass corrupt next eq = cc
>>=-eq-pass (pass middle) next eq = (middle, refl, eq)

pub pass-injective {ℓ} : {A : Type ℓ} (a b : A) → pass a ≡ pass b → a ≡ b
pass-injective a b e = cc

pub refuse_if-pass :
    (b : Bool) (r : Reason) (w w' : Walk) → refuse_if b r w ≡ pass w' → (b ≡ false) × (w ≡ w')
refuse_if-pass true r w w' h = cc
refuse_if-pass false r w w' h = (refl, pass-injective w w' h)

-- The state and the equity that the steps before the second fold leave alone.
abbrev pub SameView : Walk → Walk → Type 0
SameView w w' = (w'.state ≡ w.state) × (w'.equity ≡ w.equity)

module _ (e : Engine) (a : Ask) where
  -- A step that is not skipped has passed.
  pub walk_steps-run :
      (step : Step) (steps : List Step) (w d : Walk)
      → skip_step a step ≡ false
      → walk_steps e a (step ∷ steps) w ≡ pass d
      → (w' : Walk) × (run_step e a step w ≡ pass w') × (walk_steps e a steps w' ≡ pass d)
  unfolding walk_steps
  walk_steps-run step steps w d runs h =
      >>=-eq-pass (run_step e a step w) (λ w'. walk_steps e a steps w') (rw runs at h)

  pub walk_steps-append :
      (before after : List Step) (w d : Walk)
      → walk_steps e a (before ++ after) w ≡ pass d
      → (m : Walk) × (walk_steps e a before w ≡ pass m) × (walk_steps e a after m ≡ pass d)
  unfolding walk_steps
  walk_steps-append [] after w d h = (w, refl, h)
  walk_steps-append (step ∷ before) after w d h =
      let (w', one, rest) = >>=-eq-pass _ (λ v. walk_steps e a (before ++ after) v) h in
      let (m, first, last) = walk_steps-append before after w' d rest in (m, rw one first, last)
