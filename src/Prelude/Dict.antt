-- ===== src/Prelude/Dict.antt =====
-- A Python dict with text keys, as an association list in insertion order.
use Prim.Native.String.{String}
use mathlib.Core.Path.{◌≡◌, refl}
use mathlib.Core.Option.{Option, none, some}
use mathlib.Core.List.{List, [], ◌∷◌}
use native.Mathlib.Omega.{arith}
use text.Mathlib.Text.{◌==◌ as str_eq}
use text.Mathlib.TextEquality.{eq_iff}
use pump_grok.Prelude.Tests.{if◌then◌else◌}
use pump_grok.Prelude.Int.{ℤ, pos, ◌+ℤ◌, int_laws}

abbrev pub Dict {ℓ} : Type ℓ → Type ℓ
Dict V = List (String × V)

module _ {ℓ} {V : Type ℓ} where
  -- `d.get(k)`
  unfoldable pub lookup : String → Dict V → Option V
  lookup k [] = none
  lookup k ((j, v) ∷ d) = if str_eq j k then some v else lookup k d

  -- `d[k] = v`: in place where the key is there, else at the end.
  unfoldable pub insert : String → V → Dict V → Dict V
  insert k v [] = (k, v) ∷ []
  insert k v ((j, w) ∷ d) = if str_eq j k then (j, v) ∷ d else (j, w) ∷ insert k v d

  -- `d.pop(k, None)`
  unfoldable pub erase : String → Dict V → Dict V
  erase k [] = []
  erase k ((j, w) ∷ d) = if str_eq j k then d else (j, w) ∷ erase k d

  -- `sum(f(v) for v in d.values())`
  unfoldable pub total : (V → ℤ) → Dict V → ℤ
  total f [] = pos 0
  total f ((j, v) ∷ d) = f v +ℤ total f d

  -- Every entry satisfies `P`.
  abbrev pub AllEntries : (String → V → Type 0) → Dict V → Type 0
  AllEntries P [] = Unit
  AllEntries P ((j, v) ∷ d) = P j v × AllEntries P d

  pub lookup-insert :
      (k j : String) (v : V) (d : Dict V)
      → lookup j (insert k v d) ≡ (if str_eq k j then some v else lookup j d)
  unfolding lookup insert
  lookup-insert k j v [] = refl
  lookup-insert k j v ((i, w) ∷ d) =
      ground (arith, eq_iff k j, eq_iff i k, eq_iff i j, lookup-insert k j v d)

  pub total-insert :
      (f : V → ℤ) (k : String) (v old : V) (d : Dict V)
      → lookup k d ≡ some old
      → total f (insert k v d) +ℤ f old ≡ total f d +ℤ f v
  unfolding lookup insert total
  total-insert f k v old [] e = cc
  total-insert f k v old ((j, w) ∷ d) e = grind (int_laws, total-insert f k v old d)

  pub total-insert_absent :
      (f : V → ℤ) (k : String) (v : V) (d : Dict V)
      → lookup k d ≡ none
      → total f (insert k v d) ≡ total f d +ℤ f v
  unfolding lookup insert total
  total-insert_absent f k v [] e = omega int_laws
  total-insert_absent f k v ((j, w) ∷ d) e = grind (int_laws, total-insert_absent f k v d)

  pub total-erase :
      (f : V → ℤ) (k : String) (old : V) (d : Dict V)
      → lookup k d ≡ some old
      → total f (erase k d) +ℤ f old ≡ total f d
  unfolding lookup erase total
  total-erase f k old [] e = cc
  total-erase f k old ((j, w) ∷ d) e = grind (int_laws, total-erase f k old d)

module _ {V : Type 0} (P : String → V → Type 0) where
  pub insert-AllEntries :
      (k : String) (v : V) (d : Dict V) → P k v → AllEntries P d → AllEntries P (insert k v d)
  unfolding insert
  insert-AllEntries k v [] p h = (p, tt)
  insert-AllEntries k v ((j, w) ∷ d) p h = ground (arith, eq_iff j k, insert-AllEntries k v d p h.1)

  pub erase-AllEntries : (k : String) (d : Dict V) → AllEntries P d → AllEntries P (erase k d)
  unfolding erase
  erase-AllEntries k [] h = tt
  erase-AllEntries k ((j, w) ∷ d) h = ground (arith, erase-AllEntries k d h.1)

  pub lookup-AllEntries :
      (k : String) (v : V) (d : Dict V) → AllEntries P d → lookup k d ≡ some v → P k v
  unfolding lookup
  lookup-AllEntries k v [] h e = cc
  lookup-AllEntries k v ((j, w) ∷ d) h e = ground (arith, eq_iff j k, lookup-AllEntries k v d h.1)
