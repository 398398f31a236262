-- ===== src/Ledger/Store/Repeats.antt =====
-- One row for each idempotency key.
use pump_grok.Prelude.{
  ◌≡◌, ◌≢◌, refl, sym, ap, ◌∙◌, subst, false, String, Option, none, some, List, [], ◌∷◌, ◌++◌,
  arith, inl, inr, Bool-cases, str_eq, eq_iff, if◌then◌else◌,
}
use text.Mathlib.TextPositions.{eq_refl}
use pump_grok.Ledger.Store.{
  Row, HashBody, Store, Entry, ok, >>=-eq-ok, ok-injective, genesis_head, next_head, has_key,
  by_key, write_entry, append,
}
use pump_grok.Ledger.Store.Chain.{write_entry-Written, err-ne-ok}

by_key-has_key : (rows : List Row) (k : String) → has_key k rows ≡ false → by_key rows k ≡ none
unfolding has_key by_key
by_key-has_key [] k h = refl
by_key-has_key (r ∷ rows) k h = ground (arith, by_key-has_key rows k)

by_key-append :
    (rows : List Row) (r : Row) (k : String)
    → has_key r.body.idempotency_key rows ≡ false
    → by_key (rows ++ r ∷ []) k
      ≡ (if str_eq r.body.idempotency_key k then some r else by_key rows k)
unfolding has_key by_key
by_key-append [] r k h = refl
by_key-append (q ∷ rows) r k h = ground (
  arith,
  by_key-append rows r k,
  eq_iff q.body.idempotency_key r.body.idempotency_key,
  eq_iff q.body.idempotency_key k,
  eq_iff r.body.idempotency_key k,
)

none-ne-some {ℓ} : {A : Type ℓ} {a : A} → none ≡ some a → ⊥
none-ne-some h = cc

module _ {Payload : Type 0} (digest : HashBody → String)
    (validate : String → Payload → Option String) where
  append-by_key :
      (s t : Store) (e : Entry Payload) (r : Row)
      → append digest validate s e ≡ ok (r, t)
      → (by_key s.rows e.idempotency_key ≡ none)
        × ((k : String)
            → by_key t.rows k ≡ (if str_eq e.idempotency_key k then some r else by_key s.rows k))
  unfolding append
  append-by_key s t e r h = elim (Bool-cases s.inconsistent) [
    | inl bad ↦ absurd (err-ne-ok (rw bad at h))
    | inr good ↦
        let (one, first, last) =
          >>=-eq-ok (write_entry digest validate (next_head genesis_head s.rows) s.rows e) _
            (rw good at h) in
        let w =
          write_entry-Written digest validate (next_head genesis_head s.rows) s.rows e one first in
        subst
          (λ (o : Row × Store).
            (by_key s.rows e.idempotency_key ≡ none)
            × ((k : String)
                → by_key o.1.rows k
                  ≡ (if str_eq e.idempotency_key k then some o.0 else by_key s.rows k)))
          (ok-injective _ (r, t) last)
          (
            by_key-has_key s.rows e.idempotency_key w.fresh,
            λ k. rw (w.grown, ← w.keyed) (by_key-append s.rows one.0 k (rw w.keyed w.fresh)),
          )
  ]

  -- An append that succeeds was of a key that no row had. After it the key finds the row it
  -- stored, every other key finds what it found before, and no entry with that key can be
  -- appended any more.
  pub append_once :
      (s t : Store) (e : Entry Payload) (r : Row)
      → append digest validate s e ≡ ok (r, t)
      → (by_key s.rows e.idempotency_key ≡ none)
        × ((k : String)
            → by_key t.rows k ≡ (if str_eq e.idempotency_key k then some r else by_key s.rows k))
        × ((e' : Entry Payload) (out : Row × Store)
            → e'.idempotency_key ≡ e.idempotency_key
            → append digest validate t e' ≢ ok out)
  append_once s t e r h =
      let (new_key, finds) = append-by_key s t e r h in
      (
        new_key,
        finds,
        λ e' out same again. none-ne-some {a = r} (
            sym (append-by_key t out.1 e' out.0 again).0
            ∙ ap (by_key t.rows) same
            ∙ finds e.idempotency_key
            ∙ rw (eq_refl e.idempotency_key)),
      )
