-- ===== src/Risk/Domain/Rejects.antt =====
-- The reject window of `ExecErrorsBreaker` against a plain filter.
use pump_grok.Prelude.{
  ℕ, ◌+◌, ◌≤◌, ◌<◌, ◌≡◌, refl, true, false, String, some, List, [], ◌∷◌, ◌++◌, arith, ltb,
  if◌then◌else◌,
}
use pump_grok.Prelude.Lists.{length, contains}
use pump_grok.Risk.Breaker.{is_open}
use pump_grok.Risk.Domain.{ExecErrorsBreaker, exec_error_reasons, prune_rejects, note_reject}

-- The times that lie in the window that ends at `ts`.
unfoldable pub recent : ℕ → ℕ → List ℕ → List ℕ
recent ts window [] = []
recent ts window (r ∷ rs) =
    if ltb (r + window) ts then recent ts window rs else r ∷ recent ts window rs

-- Each time is at least `low` and those before it.
abbrev pub Ascends : ℕ → List ℕ → Type 0
Ascends low [] = Unit
Ascends low (r ∷ rs) = (low ≤ r) × Ascends r rs

recent_all :
    (ts window low : ℕ) (rs : List ℕ)
    → ts ≤ low + window
    → Ascends low rs
    → recent ts window rs ≡ rs
unfolding recent
recent_all ts window low [] h a = refl
recent_all ts window low (r ∷ rs) h a = ground (arith, recent_all ts window r rs)

prune_rejects-recent :
    (ts window low : ℕ) (rs : List ℕ)
    → Ascends low rs
    → prune_rejects ts window rs ≡ recent ts window rs
unfolding prune_rejects recent
prune_rejects-recent ts window low [] a = refl
prune_rejects-recent ts window low (r ∷ rs) a =
    ground (arith, prune_rejects-recent ts window r rs a.1, recent_all ts window r rs)

-- On times that ascend, a qualifying reject at `ts` leaves exactly the recorded times of the
-- window that ends at `ts`. A breaker that is not open then opens at `ts` if they reach the
-- limit, and is untouched if they do not; any other reason changes nothing.
pub note_reject_lem :
    (x : ExecErrorsBreaker) (ts : ℕ) (reason : String) (now : ℕ)
    → Ascends 0 (x.rejects ++ ts ∷ [])
    → (is_open x.base now).0 ≡ false
    → let kept = recent ts x.window_s (x.rejects ++ ts ∷ []) in
      let x' = note_reject x ts reason now in
      (contains reason exec_error_reasons ≡ false → x' ≡ x)
      × (contains reason exec_error_reasons ≡ true
          → (x'.rejects ≡ kept)
            × (x.max_rejects ≤ length kept → x'.base.opened_at ≡ some ts)
            × (length kept < x.max_rejects → x'.base ≡ x.base))
unfolding note_reject is_open
note_reject_lem x ts reason now a shut =
    let same = prune_rejects-recent ts x.window_s 0 (x.rejects ++ ts ∷ []) a in
    (
      λ other. rw other,
      λ listed. rw (listed, same) (ground arith, λ many. ground arith, λ few. ground arith),
    )
