-- ===== src/Ledger/Store/Chain.antt =====
-- Appending keeps the hash chain whole.
use pump_grok.Prelude.{
  ℕ, ◌+◌, ◌≡◌, refl, subst, true, false, String, Option, none, some, List, [], ◌∷◌, ◌++◌, arith,
  inl, inr, Bool-cases, eq_iff,
}
use pump_grok.Ledger.Store.{
  Row, HashBody, Store, Entry, Error, ok, err, has_key, check_envelope, >>=-eq-ok, ok-injective,
  genesis_head, genesis_prev_hash, next_head, insert_row, make_row, write_valid, write_entry,
  append, write_all, append_batch, verify_from, verify,
}

-- The hash that the next row must name.
verify_from-append :
    (digest : HashBody → String) (n : ℕ) (prev : String) (rows : List Row) (r : Row)
    → verify_from digest prev rows ≡ true
    → r.body.prev_hash ≡ (next_head (n, prev) rows).1
    → digest r.body ≡ r.hash
    → verify_from digest prev (rows ++ r ∷ []) ≡ true
unfolding verify_from next_head
verify_from-append digest n prev [] r v p d =
    ground (arith, eq_iff r.body.prev_hash prev, eq_iff (digest r.body) r.hash)
verify_from-append digest n prev (q ∷ rows) r v p d =
    ground (arith, verify_from-append digest (q.body.seq + 1) q.hash rows r)

next_head-append :
    (head : ℕ × String) (rows : List Row) (r : Row)
    → next_head head (rows ++ r ∷ []) ≡ (r.body.seq + 1, r.hash)
unfolding next_head
next_head-append head [] r = refl
next_head-append head (q ∷ rows) r = next_head-append (q.body.seq + 1, q.hash) rows r

insert_row-rows :
    (rows rows' : List Row) (r : Row) → insert_row rows r ≡ ok rows' → rows' ≡ rows ++ r ∷ []
unfolding insert_row
insert_row-rows rows rows' r e = ground arith

pub err-ne-ok {ℓ} : {A : Type ℓ} {x : Error} {a : A} → err x ≡ ok a → ⊥
err-ne-ok h = cc

-- What a written entry is: one more row at the end, at the head, with its own digest and a key
-- that no row had.
pub record Written (digest : HashBody → String) (head : ℕ × String) (rows : List Row) (key : String)
    (r : Row) (rows' : List Row) : Type 0 where
  pub grown : rows' ≡ rows ++ r ∷ []
  pub numbered : r.body.seq ≡ head.0
  pub chained : r.body.prev_hash ≡ head.1
  pub digested : digest r.body ≡ r.hash
  pub keyed : r.body.idempotency_key ≡ key
  pub fresh : has_key key rows ≡ false

insert_row-fresh :
    (rows rows' : List Row) (r : Row)
    → insert_row rows r ≡ ok rows'
    → has_key r.body.idempotency_key rows ≡ false
unfolding insert_row
insert_row-fresh rows rows' r e = ground arith

Written-chain :
    (digest : HashBody → String) (rows : List Row) (key : String) (r : Row) (rows' : List Row)
    → verify_from digest genesis_prev_hash rows ≡ true
    → Written digest (next_head genesis_head rows) rows key r rows'
    → verify_from digest genesis_prev_hash rows' ≡ true
Written-chain digest rows key r rows' v w =
    rw w.grown (verify_from-append digest 1 genesis_prev_hash rows r v w.chained w.digested)

pub Written-head :
    (digest : HashBody → String) (rows : List Row) (key : String) (r : Row) (rows' : List Row)
    → Written digest (next_head genesis_head rows) rows key r rows'
    → next_head genesis_head rows' ≡ ((next_head genesis_head rows).0 + 1, r.hash)
Written-head digest rows key r rows' w = rw (w.grown, next_head-append, w.numbered)

module _ {Payload : Type 0} (digest : HashBody → String)
    (validate : String → Payload → Option String) where
  write_valid-Written :
      (head : ℕ × String) (rows : List Row) (e : Entry Payload) (json : Option String)
      (out : Row × List Row)
      → write_valid digest validate head rows e json ≡ ok out
      → Written digest head rows e.idempotency_key out.0 out.1
  unfolding write_valid
  write_valid-Written head rows e none out h = cc
  write_valid-Written head rows e (some json) out h =
      let r = make_row digest validate head e json in
      let (rows', inserted, last) = >>=-eq-ok (insert_row rows r) _ h in
      subst (λ o. Written digest head rows e.idempotency_key o.0 o.1)
        (ok-injective (r, rows') out last) (made head rows rows' e json inserted)
    where
      made :
          (head : ℕ × String) (rows rows' : List Row) (e : Entry Payload) (json : String)
          → insert_row rows (make_row digest validate head e json) ≡ ok rows'
          → Written digest head rows e.idempotency_key (make_row digest validate head e json) rows'
      made (n, prev) rows rows' e json inserted =
          unfold make_row in
          record {
            grown = insert_row-rows rows rows' _ inserted;
            numbered = refl;
            chained = refl;
            digested = refl;
            keyed = refl;
            fresh = insert_row-fresh rows rows' _ inserted;
          }

  pub write_entry-Written :
      (head : ℕ × String) (rows : List Row) (e : Entry Payload) (out : Row × List Row)
      → write_entry digest validate head rows e ≡ ok out
      → Written digest head rows e.idempotency_key out.0 out.1
  unfolding write_entry
  write_entry-Written head rows e out h = elim (Bool-cases (check_envelope e)) [
    | inl good ↦ write_valid-Written head rows e (validate e.type e.payload) out (rw good at h)
    | inr bad ↦ absurd (err-ne-ok (rw bad at h))
  ]

  write_all-chain :
      (es : List (Entry Payload)) (rows : List Row) (out : List Row × List Row)
      → verify_from digest genesis_prev_hash rows ≡ true
      → write_all digest validate (next_head genesis_head rows) rows es ≡ ok out
      → verify_from digest genesis_prev_hash out.1 ≡ true
  unfolding write_all
  write_all-chain [] rows out v h =
      subst (λ o. verify_from digest genesis_prev_hash o.1 ≡ true) (ok-injective ([], rows) out h) v
  write_all-chain (e ∷ es) rows out v h =
      let head = next_head genesis_head rows in
      let (one, first, rest) = >>=-eq-ok (write_entry digest validate head rows e) _ h in
      let w = write_entry-Written head rows e one first in
      let v' = Written-chain digest rows e.idempotency_key one.0 one.1 v w in
      let (tail, more, last) =
        >>=-eq-ok (write_all digest validate (head.0 + 1, one.0.hash) one.1 es) _ rest in
      let more' = rw (← Written-head digest rows e.idempotency_key one.0 one.1 w) at more in
      subst (λ o. verify_from digest genesis_prev_hash o.1 ≡ true)
        (ok-injective (one.0 ∷ tail.0, tail.1) out last) (write_all-chain es one.1 tail v' more')

  -- Appending one entry to a ledger that verifies leaves a ledger that verifies.
  pub append-verifies :
      (s t : Store) (e : Entry Payload) (r : Row)
      → verify_from digest genesis_prev_hash s.rows ≡ true
      → append digest validate s e ≡ ok (r, t)
      → verify_from digest genesis_prev_hash t.rows ≡ true
  unfolding append
  append-verifies s t e r v h = elim (Bool-cases s.inconsistent) [
    | inl bad ↦ absurd (err-ne-ok (rw bad at h))
    | inr good ↦
        let (one, first, last) =
          >>=-eq-ok (write_entry digest validate (next_head genesis_head s.rows) s.rows e) _
            (rw good at h) in
        let w = write_entry-Written (next_head genesis_head s.rows) s.rows e one first in
        subst (λ (o : Row × Store). verify_from digest genesis_prev_hash o.1.rows ≡ true)
          (ok-injective _ (r, t) last)
          (Written-chain digest s.rows e.idempotency_key one.0 one.1 v w)
  ]

  batch-verifies :
      (s t : Store) (es : List (Entry Payload)) (stored : List Row)
      → verify_from digest genesis_prev_hash s.rows ≡ true
      → append_batch digest validate s es ≡ ok (stored, t)
      → verify_from digest genesis_prev_hash t.rows ≡ true
  unfolding append_batch
  batch-verifies s t [] stored v h =
      subst (λ (o : List Row × Store). verify_from digest genesis_prev_hash o.1.rows ≡ true)
        (ok-injective ([], s) (stored, t) h) v
  batch-verifies s t (e ∷ es) stored v h = elim (Bool-cases s.inconsistent) [
    | inl bad ↦ absurd (err-ne-ok (rw bad at h))
    | inr good ↦
        let (all, first, last) =
          >>=-eq-ok (write_all digest validate (next_head genesis_head s.rows) s.rows (e ∷ es)) _
            (rw good at h) in
        subst (λ (o : List Row × Store). verify_from digest genesis_prev_hash o.1.rows ≡ true)
          (ok-injective _ (stored, t) last) (write_all-chain (e ∷ es) s.rows all v first)
  ]

  -- A batch that is appended to a ledger that verifies leaves a ledger on which `verify` succeeds,
  -- and so with a clear INCONSISTENT latch.
  pub append_batch-verify :
      (s t : Store) (es : List (Entry Payload)) (stored : List Row)
      → verify_from digest genesis_prev_hash s.rows ≡ true
      → append_batch digest validate s es ≡ ok (stored, t)
      → verify digest t ≡ (ok true, record t { inconsistent = false })
  unfolding verify
  append_batch-verify s t es stored v h = rw (batch-verifies s t es stored v h)
