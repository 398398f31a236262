-- ===== src/Risk/Engine/Cache.antt =====
-- The decision cache of `RiskEngine.check`: src/pumpgrok/risk/engine/core.py.
use pump_grok.Prelude.{
  ℕ, ◌≤◌, true, String, none, some, List, [], ◌∷◌, ◌≡◌, refl, subst, ◌⊎◌, inl, inr, Bool-cases,
  Option-cases, some-injective, arith, str_eq, eq_iff, leb, leb→le, if◌then◌else◌,
}
use pump_grok.Prelude.Lists.{length}
use pump_grok.Prelude.Dict.{Dict, lookup, insert, AllEntries, insert-AllEntries}

-- `_DECISION_CACHE_MAX`
abbrev pub decision_cache_max : ℕ
decision_cache_max = 1024

module _ {D : Type 0} where
  -- `while len(...) > max`, which drops the oldest entries. `length` is that of the whole cache.
  unfoldable pub evict : ℕ → Dict D → Dict D
  evict max [] = []
  evict max (e ∷ cache) =
      let rest = evict max cache in if leb (length (e ∷ cache)) max then e ∷ cache else rest

  -- The part of `check` after the key: the decision, and the cache. `decided` is what `_evaluate`
  -- gives where it is called.
  unfoldable pub check_cached : ℕ → String → D → Dict D → D × Dict D
  unfolding evict insert lookup
  check_cached max key decided cache = elim (lookup key cache) [
    | some d ↦ (d, cache)
    | none ↦ (decided, evict max (insert key decided cache))
  ]

  -- A run of checks, each with its key and the decision that an evaluation would give: the
  -- decisions that they return, and the cache.
  unfoldable pub check_all : ℕ → List (String × D) → Dict D → List D × Dict D
  unfolding check_cached
  check_all max [] cache = ([], cache)
  check_all max ((key, decided) ∷ checks) cache =
      let (d, cache') = check_cached max key decided cache in
      let (ds, last) = check_all max checks cache' in (d ∷ ds, last)

  pub evict-length : (max : ℕ) (cache : Dict D) → length (evict max cache) ≤ max
  unfolding evict
  evict-length max [] = omega arith
  evict-length max (e ∷ cache) = elim (Bool-cases (leb (length (e ∷ cache)) max)) [
    | inl g ↦ rw (evict, g) (leb→le (length (e ∷ cache)) max g)
    | inr g ↦ rw (evict, g) (evict-length max cache)
  ]

  evict-AllEntries :
      (P : String → D → Type 0) (max : ℕ) (cache : Dict D)
      → AllEntries P cache
      → AllEntries P (evict max cache)
  unfolding evict
  evict-AllEntries P max [] h = tt
  evict-AllEntries P max ((k, d) ∷ cache) h =
      elim (Bool-cases (leb (length ((k, d) ∷ cache)) max)) [
        | inl g ↦ rw (evict, g) h
        | inr g ↦ rw (evict, g) (evict-AllEntries P max cache h.1)
      ]

  lookup-AllEntries :
      (P : String → D → Type 0) (k : String) (d : D) (cache : Dict D)
      → AllEntries P cache
      → lookup k cache ≡ some d
      → P k d
  unfolding lookup
  lookup-AllEntries P k d [] h found = cc
  lookup-AllEntries P k d ((j, e) ∷ cache) h found = elim (Bool-cases (str_eq j k)) [
    | inl g ↦
        let same : e ≡ d = some-injective e d (rw g at found) in
        subst (λ x. P x d) (text-eq j k g) (subst (P j) same h.0)
    | inr g ↦ lookup-AllEntries P k d cache h.1 (rw g at found)
  ]
    where
      text-eq : (a b : String) → str_eq a b ≡ true → a ≡ b
      text-eq a b g = ground (arith, eq_iff a b)

  all-AllEntries :
      (P Q : String → D → Type 0) (cache : Dict D)
      → ((k : String) (d : D) → P k d → Q k d)
      → AllEntries P cache
      → AllEntries Q cache
  all-AllEntries P Q [] f h = tt
  all-AllEntries P Q ((k, d) ∷ cache) f h = (f k d h.0, all-AllEntries P Q cache f h.1)

  -- An evaluation under the key gave the decision.
  abbrev pub Evaluated : List (String × D) → String → D → Type 0
  Evaluated [] k d = ⊥
  Evaluated ((j, e) ∷ done) k d = ((j ≡ k) × (e ≡ d)) ⊎ Evaluated done k d

  -- Each decision is that of an evaluation under the same key, at its check or at an earlier one.
  abbrev pub AllEvaluated : List (String × D) → List (String × D) → List D → Type 0
  AllEvaluated done [] [] = Unit
  AllEvaluated done [] (d ∷ ds) = ⊥
  AllEvaluated done (c ∷ checks) [] = ⊥
  AllEvaluated done ((k, e) ∷ checks) (d ∷ ds) =
      Evaluated ((k, e) ∷ done) k d × AllEvaluated ((k, e) ∷ done) checks ds

  check_cached-lem :
      (max : ℕ) (key : String) (decided : D) (done : List (String × D)) (cache : Dict D)
      → AllEntries (Evaluated done) cache
      → length cache ≤ max
      → Evaluated ((key, decided) ∷ done) key (check_cached max key decided cache).0
        × AllEntries (Evaluated ((key, decided) ∷ done)) (check_cached max key decided cache).1
        × (length (check_cached max key decided cache).1 ≤ max)
  unfolding check_cached
  check_cached-lem max key decided done cache h small =
      let now = Evaluated ((key, decided) ∷ done) in
      let grown : AllEntries now cache =
        all-AllEntries (Evaluated done) now cache (λ k d p. inr p) h in
      elim (Option-cases (lookup key cache)) [
        | inr (d, e) ↦
            rw (check_cached, e)
              (inr (lookup-AllEntries (Evaluated done) key d cache h e), grown, small)
        | inl e ↦
            rw (check_cached, e)
              (
                inl (refl, refl),
                evict-AllEntries now max (insert key decided cache)
                    (insert-AllEntries now key decided cache (inl (refl, refl)) grown),
                evict-length max (insert key decided cache),
              )
      ]

  check_all-from :
      (max : ℕ) (checks done : List (String × D)) (cache : Dict D)
      → AllEntries (Evaluated done) cache
      → length cache ≤ max
      → AllEvaluated done checks (check_all max checks cache).0
        × (length (check_all max checks cache).1 ≤ max)
  unfolding check_all
  check_all-from max [] done cache h small = (tt, small)
  check_all-from max ((key, decided) ∷ checks) done cache h small =
      let (now, kept, fits) = check_cached-lem max key decided done cache h small in
      let (rest, last) =
        check_all-from max checks ((key, decided) ∷ done) (check_cached max key decided cache).1
          kept fits in
      ((now, rest), last)

  -- Over any run of checks, the cache never holds more than its bound, and each decision that is
  -- returned is the one that an evaluation gave at a check under the same key.
  pub check_all-AllEvaluated :
      (checks : List (String × D))
      → AllEvaluated [] checks (check_all decision_cache_max checks []).0
        × (length (check_all decision_cache_max checks []).1 ≤ decision_cache_max)
  check_all-AllEvaluated checks = check_all-from decision_cache_max checks [] [] tt (omega arith)
