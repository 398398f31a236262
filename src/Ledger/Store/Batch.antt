-- ===== src/Ledger/Store/Batch.antt =====
-- A batch against the same entries appended one by one.
use pump_grok.Prelude.{
  ◌+◌, ◌≡◌, refl, sym, ap, subst, ◌∙◌, false, String, Option, List, [], ◌∷◌, ◌⊎◌, inl, inr,
}
use pump_grok.Ledger.Store.{
  Row, HashBody, Store, Entry, Error, Result, ok, err, ◌>>=◌, genesis_head, next_head, write_entry,
  append, write_all, append_batch,
}
use pump_grok.Ledger.Store.Chain.{write_entry-Written, Written-head}

Result-cases {ℓ} :
    {A : Type ℓ} (m : Result A) → ((x : Error) × (m ≡ err x)) ⊎ ((a : A) × (m ≡ ok a))
Result-cases (ok a) = inr (a, refl)
Result-cases (err x) = inl (x, refl)

module _ {Payload : Type 0} (digest : HashBody → String)
    (validate : String → Payload → Option String) where
  -- One transaction for each entry; the first error is the outcome.
  unfoldable pub append_each : Store → List (Entry Payload) → Result (List Row × Store)
  append_each s [] = ok ([], s)
  append_each s (e ∷ es) = append digest validate s e >>= λ (r, t).
      (append_each t es >>= λ (stored, u). ok (r ∷ stored, u))

  abbrev usable : List Row → Store
  usable rows = record { rows = rows; inconsistent = false }

  finish : Result (List Row × List Row) → Result (List Row × Store)
  finish m = m >>= λ (stored, rows). ok (stored, usable rows)

  carry :
      (r : Row) (m : Result (List Row × List Row))
      → finish (m >>= λ (stored, rows). ok (r ∷ stored, rows))
        ≡ (finish m >>= λ (stored, u). ok (r ∷ stored, u))
  unfolding finish
  carry r (ok (stored, rows)) = refl
  carry r (err x) = refl

  write_all-append_each :
      (rows : List Row) (es : List (Entry Payload))
      → finish (write_all digest validate (next_head genesis_head rows) rows es)
        ≡ append_each (usable rows) es
  unfolding finish write_all append_each append
  write_all-append_each rows [] = refl
  write_all-append_each rows (e ∷ es) =
      let head = next_head genesis_head rows in
      elim (Result-cases (write_entry digest validate head rows e)) [
        | inl (x, failed) ↦ rw failed
        | inr (one, wrote) ↦
            let w = write_entry-Written digest validate head rows e one wrote in
            let rest = write_all-append_each one.1 es in
            let tail = write_all digest validate (head.0 + 1, one.0.hash) one.1 es in
            let moved = rw (Written-head digest rows e.idempotency_key one.0 one.1 w) at rest in
            rw wrote
              (carry one.0 tail ∙ ap (λ m. m >>= λ (stored, u). ok (one.0 ∷ stored, u)) moved)
      ]

  usable_batch :
      (rows : List Row) (es : List (Entry Payload))
      → append_batch digest validate (usable rows) es ≡ append_each (usable rows) es
  unfolding append_batch
  usable_batch rows [] = unfold append_each in refl
  usable_batch rows (e ∷ es) = unfold finish in write_all-append_each rows (e ∷ es)

  -- On a store whose latch is clear, a batch has the outcome of the same entries appended one by
  -- one: the same stored rows and the same store, or the error of the first entry that is refused.
  pub append_batch-append_each :
      (s : Store) (es : List (Entry Payload))
      → s.inconsistent ≡ false
      → append_batch digest validate s es ≡ append_each s es
  append_batch-append_each s es good =
      subst (λ t. append_batch digest validate t es ≡ append_each t es)
        (λ i. record { rows = s.rows; inconsistent = sym good i }) (usable_batch s.rows es)
