-- ===== src/Ledger/Store/Tamper.antt =====
-- The hash chain is tamper evident.
use pump_grok.Prelude.{
  ℕ, ◌+◌, ◌≡◌, ◌≢◌, refl, sym, ap, ◌∙◌, true, false, String, List, [], ◌∷◌, arith, inl, inr,
  Bool-cases, eq_iff,
}
use pump_grok.Prelude.Lists.{length}
use pump_grok.Ledger.Store.{Row, HashBody, genesis_head, genesis_prev_hash, next_head, verify_from}

-- The digest tells the two ledgers' bodies apart, row by row.
abbrev pub NoCollision : (HashBody → String) → List Row → List Row → Type 0
NoCollision digest [] rs' = Unit
NoCollision digest (r ∷ rs) [] = Unit
NoCollision digest (r ∷ rs) (r' ∷ rs') =
    (digest r.body ≡ digest r'.body → r.body ≡ r'.body) × NoCollision digest rs rs'

verified_head :
    (digest : HashBody → String) (prev : String) (r : Row) (rs : List Row)
    → verify_from digest prev (r ∷ rs) ≡ true
    → (r.body.prev_hash ≡ prev) × (digest r.body ≡ r.hash) × (verify_from digest r.hash rs ≡ true)
unfolding verify_from
verified_head digest prev r rs h =
    ground (arith, eq_iff r.body.prev_hash prev, eq_iff (digest r.body) r.hash)

same_chain :
    (digest : HashBody → String) (n n' : ℕ) (prev prev' : String) (rs rs' : List Row)
    → NoCollision digest rs rs'
    → verify_from digest prev rs ≡ true
    → verify_from digest prev' rs' ≡ true
    → length rs ≡ length rs'
    → (next_head (n, prev) rs).1 ≡ (next_head (n', prev') rs').1
    → (prev ≡ prev') × (rs ≡ rs')
unfolding next_head
same_chain digest n n' prev prev' [] [] c v v' l e = (e, refl)
same_chain digest n n' prev prev' [] (r' ∷ rs') c v v' l e = absurd (omega arith)
same_chain digest n n' prev prev' (r ∷ rs) [] c v v' l e = absurd (omega arith)
same_chain digest n n' prev prev' (r ∷ rs) (r' ∷ rs') c v v' l e =
    let (p, d, w) = verified_head digest prev r rs v in
    let (p', d', w') = verified_head digest prev' r' rs' v' in
    let (hashes, tails) =
      same_chain digest (r.body.seq + 1) (r'.body.seq + 1) r.hash r'.hash rs rs' c.1 w w'
        (omega arith) e in
    let bodies = c.0 (d ∙ hashes ∙ sym d') in
    (
      sym p ∙ ap (λ (b : HashBody). b.prev_hash) bodies ∙ p',
      λ i. record { body = bodies i; hash = hashes i } ∷ tails i,
    )

-- A ledger that verifies fails to verify once any of its rows is altered, if the number of rows
-- and the head hash are those of before and the digest does not collide on the altered rows.
pub tamper_evident :
    (digest : HashBody → String) (rs rs' : List Row)
    → NoCollision digest rs rs'
    → verify_from digest genesis_prev_hash rs ≡ true
    → length rs ≡ length rs'
    → (next_head genesis_head rs).1 ≡ (next_head genesis_head rs').1
    → rs ≢ rs'
    → verify_from digest genesis_prev_hash rs' ≡ false
tamper_evident digest rs rs' c v l e altered =
    elim (Bool-cases (verify_from digest genesis_prev_hash rs')) [
      | inl v' ↦
          absurd (
            altered (same_chain digest 1 1 genesis_prev_hash genesis_prev_hash rs rs' c v v' l e).1)
      | inr fails ↦ fails
    ]
