-- ===== src/Core/Json.antt =====
-- `_normalize` of src/pumpgrok/core/idempotency.py: the values that have a canonical form.
use pump_grok.Prelude.{Bool, String, Option, none, some, ◌≡◌, refl}
use pump_grok.Prelude.Int.{ℤ}
use pump_grok.Prelude.Decimal.{Decimal}

-- A Python value by what `_normalize` tests of it. `odd` is one of any other type, `nan` a Decimal
-- that is not finite. A key that is not a `str` is `none`.
mutual
  pub data Value : Type 0 where
    null float nan odd : Value
    text : String → Value
    flag : Bool → Value
    int : ℤ → Value
    ratio : Decimal → Value
    array : Items → Value
    object : Fields → Value

  pub data Items : Type 0 where
    no_item : Items
    item : Value → Items → Items

  pub data Fields : Type 0 where
    no_field : Fields
    field : Option String → Value → Fields → Fields

infixl 5 ◌>>=◌
abbrev pub ◌>>=◌ {ℓ κ} : {A : Type ℓ} {B : Type κ} → Option A → (A → Option B) → Option B
none >>= f = none
some a >>= f = f a

pub >>=-eq-some {ℓ κ} :
    {A : Type ℓ} {B : Type κ} (first : Option A) (next : A → Option B) {last : B}
    → first >>= next ≡ some last
    → (middle : A) × (first ≡ some middle) × (next middle ≡ some last)
>>=-eq-some none next eq = cc
>>=-eq-some (some a) next eq = (a, refl, eq)

-- `str_of` is `str` of a finite Decimal. `none` is a `TypeError`.
module _ (str_of : Decimal → String) where
  unfoldable mutual
    pub normalize : Value → Option Value
    normalize null = some null
    normalize float = none
    normalize nan = none
    normalize odd = none
    normalize (text s) = some (text s)
    normalize (flag b) = some (flag b)
    normalize (int n) = some (int n)
    normalize (ratio d) = some (text (str_of d))
    normalize (array xs) = normalize_items xs >>= λ ys. some (array ys)
    normalize (object fs) = normalize_fields fs >>= λ gs. some (object gs)

    pub normalize_items : Items → Option Items
    normalize_items no_item = some no_item
    normalize_items (item v xs) =
        normalize v >>= λ w. (normalize_items xs >>= λ ys. some (item w ys))

    pub normalize_fields : Fields → Option Fields
    normalize_fields no_field = some no_field
    normalize_fields (field none v fs) = none
    normalize_fields (field (some k) v fs) =
        normalize v >>= λ w. (normalize_fields fs >>= λ gs. some (field (some k) w gs))
