-- ===== src/Risk/Engine/Consumed.antt =====
-- A consumed approval on the ledger: `_approvals` of src/pumpgrok/risk/engine/core.py.
use package.text.Mathlib.TextPositions.{eq_refl}
use pump_grok.Prelude.{
  Bool, true, false, String, Option, none, some, List, [], ◌∷◌, ◌++◌, ◌≡◌, refl, sym, ap, ◌∙◌, inl,
  inr, Bool-cases, Option-cases, arith, str_eq, eq_iff, if◌then◌else◌,
}
use pump_grok.Prelude.Dict.{Dict, lookup, insert, lookup-insert}
use pump_grok.Ledger.Events.{ApprovalRecorded, approval_recorded}
use pump_grok.Core.Approval.{ApprovalRecord}
use pump_grok.Risk.KillSwitch.Model.{Logged}
use pump_grok.Risk.Engine.Journal.{
  note_approval, latest_approvals, usable_approval, usable_approvals, approvals_of,
}

-- No key twice.
abbrev AreDistinct {ℓ} : {V : Type ℓ} → Dict V → Type ℓ
AreDistinct [] = Unit
AreDistinct ((k, v) ∷ d) = (lookup k d ≡ none) × AreDistinct d

if_false {ℓ} : {A : Type ℓ} {b : Bool} (x y : A) → b ≡ false → (if b then x else y) ≡ y
if_false x y e = rw e refl

if_true {ℓ} : {A : Type ℓ} {b : Bool} (x y : A) → b ≡ true → (if b then x else y) ≡ x
if_true x y e = rw e refl

insert-AreDistinct {ℓ} :
    {V : Type ℓ} (k : String) (v : V) (d : Dict V) → AreDistinct d → AreDistinct (insert k v d)
unfolding insert lookup
insert-AreDistinct k v [] w = (refl, tt)
insert-AreDistinct k v ((j, u) ∷ d) (absent, w) = elim (Bool-cases (str_eq j k)) [
  | inl e ↦ rw e (absent, w)
  | inr e ↦
      rw e (lookup-insert k j v d ∙ if_false _ _ (flipped e) ∙ absent, insert-AreDistinct k v d w)
]
  where
    flipped : str_eq j k ≡ false → str_eq k j ≡ false
    flipped e = ground (arith, eq_iff j k, eq_iff k j)

abbrev usable_of : (ApprovalRecord → Bool) → Option ApprovalRecorded → Option ApprovalRecord
usable_of is_valid none = none
usable_of is_valid (some row) = usable_approval is_valid row

usable-lookup :
    (is_valid : ApprovalRecord → Bool) (latest : Dict ApprovalRecorded) (id : String)
    → AreDistinct latest
    → lookup id (usable_approvals is_valid latest) ≡ usable_of is_valid (lookup id latest)
unfolding usable_approvals lookup
usable-lookup is_valid [] id w = refl
usable-lookup is_valid ((j, row) ∷ d) id (absent, w) =
    let rest = usable-lookup is_valid d id w in
    elim (Bool-cases (str_eq j id)) [
      | inl e ↦ elim (Option-cases (usable_approval is_valid row)) [
        | inl g ↦
            let gone : lookup id d ≡ none = ground (arith, eq_iff j id) in
            rw (usable_approvals, g, e) (rest ∙ ap (usable_of is_valid) gone ∙ sym g)
        | inr (a, g) ↦ rw (usable_approvals, g, lookup, e) (sym g)
      ]
      | inr e ↦ elim (Option-cases (usable_approval is_valid row)) [
        | inl g ↦ rw (usable_approvals, g, e) rest
        | inr (a, g) ↦ rw (usable_approvals, g, lookup, e) rest
      ]
    ]

-- Whether some row records an approval of an id.
unfoldable pub mentions : String → List Logged → Bool
mentions id [] = false
mentions id ((k, approval_recorded row) ∷ rows) =
    if str_eq row.id id then true else mentions id rows
mentions id ((k, body) ∷ rows) = mentions id rows

latest-AreDistinct :
    (latest : Dict ApprovalRecorded) (rows : List Logged)
    → AreDistinct latest
    → AreDistinct (latest_approvals latest rows)
unfolding latest_approvals note_approval
latest-AreDistinct latest [] w = w
latest-AreDistinct latest ((k, approval_recorded row) ∷ rows) w =
    elim (Bool-cases (str_eq row.id "")) [
      | inl e ↦ rw (latest_approvals, e) (latest-AreDistinct latest rows w)
      | inr e ↦
          rw (latest_approvals, e)
            (latest-AreDistinct (insert row.id row latest) rows
              (insert-AreDistinct row.id row latest w))
    ]
latest-AreDistinct latest ((k, body) ∷ rows) w = latest-AreDistinct latest rows w

latest-append :
    (latest : Dict ApprovalRecorded) (rows more : List Logged)
    → latest_approvals latest (rows ++ more) ≡ latest_approvals (latest_approvals latest rows) more
unfolding latest_approvals
latest-append latest [] more = refl
latest-append latest ((k, body) ∷ rows) more = latest-append (note_approval latest body) rows more

-- Rows that do not mention an approval keep its last row.
latest-kept :
    (latest : Dict ApprovalRecorded) (rows : List Logged) (id : String)
    → mentions id rows ≡ false
    → lookup id (latest_approvals latest rows) ≡ lookup id latest
unfolding latest_approvals note_approval mentions
latest-kept latest [] id h = refl
latest-kept latest ((k, approval_recorded row) ∷ rows) id h = elim (Bool-cases (str_eq row.id id)) [
  | inl e ↦ let stuck = rw (mentions, e) at h in cc
  | inr e ↦ elim (Bool-cases (str_eq row.id "")) [
    | inl g ↦ rw (latest_approvals, g) (latest-kept latest rows id (rw (mentions, e) at h))
    | inr g ↦
        rw (latest_approvals, g)
          (latest-kept (insert row.id row latest) rows id (rw (mentions, e) at h)
            ∙ lookup-insert row.id id row latest
            ∙ if_false _ _ e)
  ]
]
latest-kept latest ((k, body) ∷ rows) id h = latest-kept latest rows id h

-- Once a row records an approval as consumed, the approval is not among those that the engine reads,
-- on every later ledger that does not record it again.
pub approvals_of-consumed :
    (is_valid : ApprovalRecord → Bool) (rows more : List Logged) (k : String)
    (row : ApprovalRecorded)
    → str_eq row.id "" ≡ false
    → row.consumed ≡ true
    → mentions row.id more ≡ false
    → lookup row.id (approvals_of is_valid (rows ++ (k, approval_recorded row) ∷ more)) ≡ none
unfolding approvals_of usable_approval
approvals_of-consumed is_valid rows more k row named consumed quiet =
    let latest = latest_approvals [] rows in
    usable-lookup is_valid (latest_approvals [] (rows ++ (k, approval_recorded row) ∷ more)) row.id
      (latest-AreDistinct [] (rows ++ (k, approval_recorded row) ∷ more) tt)
    ∙ ap (usable_of is_valid) (
        ap (lookup row.id) (latest-append [] rows ((k, approval_recorded row) ∷ more))
        ∙ noted latest
        ∙ latest-kept (insert row.id row latest) more row.id quiet
        ∙ lookup-insert row.id row.id row latest
        ∙ if_true _ _ (eq_refl row.id))
    ∙ gone
  where
    noted :
        (latest : Dict ApprovalRecorded)
        → lookup row.id (latest_approvals latest ((k, approval_recorded row) ∷ more))
          ≡ lookup row.id (latest_approvals (insert row.id row latest) more)
    noted latest =
        unfold latest_approvals in unfold note_approval in rw (latest_approvals, named) refl

    gone : usable_of is_valid (some row) ≡ none
    gone = unfold usable_approval in rw (usable_approval, consumed) refl
