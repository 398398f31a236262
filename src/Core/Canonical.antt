-- ===== src/Core/Canonical.antt =====
-- Canonical values and keys: src/pumpgrok/core/idempotency.py.
use pump_grok.Prelude.{
  Bool, true, false, ◌&&◌, String, Option, none, some, ◌≡◌, refl, ap, subst, some-injective,
}
use pump_grok.Prelude.Decimal.{Decimal}
use pump_grok.Core.Json.{
  Value, null, text, flag, int, ratio, array, object, float, nan, odd, Items, item, no_item, Fields,
  field, no_field, normalize, normalize_items, normalize_fields, >>=-eq-some,
}
use pump_grok.Core.Idempotency.{Codec, drop_correlation, derive_idempotency_key}

-- A value that `json.dumps` prints exactly: no float, no Decimal, no value of another type, and no
-- key that is not a text.
unfoldable mutual
  pub is_exact : Value → Bool
  is_exact float = false
  is_exact nan = false
  is_exact odd = false
  is_exact (ratio d) = false
  is_exact (array xs) = are_exact xs
  is_exact (object fs) = have_exact fs
  is_exact _ = true

  pub are_exact : Items → Bool
  are_exact no_item = true
  are_exact (item v xs) = is_exact v && are_exact xs

  pub have_exact : Fields → Bool
  have_exact no_field = true
  have_exact (field none v fs) = false
  have_exact (field (some k) v fs) = is_exact v && have_exact fs

module _ (str_of : Decimal → String) where
  abbrev IsForm : Value → Type 0
  IsForm w = (is_exact w ≡ true) × (normalize str_of w ≡ some w)

  abbrev AreForms : Items → Type 0
  AreForms xs = (are_exact xs ≡ true) × (normalize_items str_of xs ≡ some xs)

  abbrev HaveForms : Fields → Type 0
  HaveForms fs = (have_exact fs ≡ true) × (normalize_fields str_of fs ≡ some fs)

  mutual
    unfolding normalize is_exact

    value-IsForm : (v w : Value) → normalize str_of v ≡ some w → IsForm w
    value-IsForm null w h = subst IsForm (some-injective _ w h) (refl, refl)
    value-IsForm float w h = cc
    value-IsForm nan w h = cc
    value-IsForm odd w h = cc
    value-IsForm (text s) w h = subst IsForm (some-injective _ w h) (refl, refl)
    value-IsForm (flag b) w h = subst IsForm (some-injective _ w h) (refl, refl)
    value-IsForm (int n) w h = subst IsForm (some-injective _ w h) (refl, refl)
    value-IsForm (ratio d) w h = subst IsForm (some-injective _ w h) (refl, refl)
    value-IsForm (array xs) w h =
        let (ys, first, last) = >>=-eq-some (normalize_items str_of xs) _ h in
        let (exact, again) = items-AreForms xs ys first in
        subst IsForm (some-injective _ w last) (exact, rw again refl)
    value-IsForm (object fs) w h =
        let (gs, first, last) = >>=-eq-some (normalize_fields str_of fs) _ h in
        let (exact, again) = fields-HaveForms fs gs first in
        subst IsForm (some-injective _ w last) (exact, rw again refl)

    items-AreForms : (xs ys : Items) → normalize_items str_of xs ≡ some ys → AreForms ys
    items-AreForms no_item ys h = subst AreForms (some-injective _ ys h) (refl, refl)
    items-AreForms (item v xs) ys h =
        let (w, first, h1) = >>=-eq-some (normalize str_of v) _ h in
        let (zs, second, last) = >>=-eq-some (normalize_items str_of xs) _ h1 in
        let (exact, again) = value-IsForm v w first in
        let (exact', again') = items-AreForms xs zs second in
        subst AreForms (some-injective _ ys last) (rw exact exact', rw (again, again') refl)

    fields-HaveForms : (fs gs : Fields) → normalize_fields str_of fs ≡ some gs → HaveForms gs
    fields-HaveForms no_field gs h = subst HaveForms (some-injective _ gs h) (refl, refl)
    fields-HaveForms (field none v fs) gs h = cc
    fields-HaveForms (field (some k) v fs) gs h =
        let (w, first, h1) = >>=-eq-some (normalize str_of v) _ h in
        let (hs, second, last) = >>=-eq-some (normalize_fields str_of fs) _ h1 in
        let (exact, again) = value-IsForm v w first in
        let (exact', again') = fields-HaveForms fs hs second in
        subst HaveForms (some-injective _ gs last) (rw exact exact', rw (again, again') refl)

  -- The canonical form of a value, where it has one, holds no float, no Decimal, no value of another
  -- type and no key that is not a text, however lists and mappings nest, and it is its own canonical
  -- form.
  pub normalize-exact :
      (v w : Value)
      → normalize str_of v ≡ some w
      → (is_exact w ≡ true) × (normalize str_of w ≡ some w)
  normalize-exact v w h = value-IsForm v w h

-- The fields of one mapping, then those of another.
unfoldable pub join_fields : Fields → Fields → Fields
join_fields no_field gs = gs
join_fields (field k v fs) gs = field k v (join_fields fs gs)

drop_correlation-join :
    (fs : Fields) (v : Value) (gs : Fields)
    → drop_correlation (join_fields fs (field (some "correlation_id") v gs))
      ≡ drop_correlation (join_fields fs gs)
unfolding drop_correlation join_fields
drop_correlation-join no_field v gs = refl
drop_correlation-join (field none w fs) v gs = ap (field none w) (drop_correlation-join fs v gs)
drop_correlation-join (field (some k) w fs) v gs = rw (drop_correlation-join fs v gs) refl

-- A payload's `correlation_id`, wherever it stands, does not enter its key: a retry under another
-- correlation id, or without one, has the key of the first attempt.
pub derive_key-correlation :
    (c : Codec) (tool bot : String) (scope : Option String) (fs gs : Fields) (v : Value)
    → derive_idempotency_key c tool bot (join_fields fs (field (some "correlation_id") v gs)) scope
      ≡ derive_idempotency_key c tool bot (join_fields fs gs) scope
unfolding derive_idempotency_key
derive_key-correlation c tool bot scope fs gs v = rw (drop_correlation-join fs v gs) refl
