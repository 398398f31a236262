-- ===== src/Execution/Orders/Keys.antt =====
-- The keyed ledger: what an append leaves, and where a key is found.
use pump_grok.Prelude.{
  ℕ, suc, ◌+◌, Bool, true, false, String, none, some, List, [], ◌∷◌, ◌++◌, ◌≡◌, refl, sym, ap,
  subst, ◌∙◌, arith, inl, inr, Bool-cases, Option-cases, some-injective, str_eq,
}
use pump_grok.Prelude.Lists.{length}
use pump_grok.Ledger.Events.{Body, fill_recorded, order_rejected}
use pump_grok.Risk.KillSwitch.Model.{Logged}
use pump_grok.Risk.KillSwitch.Clear.{key_taken}
use pump_grok.Execution.Orders.Journal.{
  Attempt, Fill, filled, rejected, in_flight, by_key, append_rows, outcome_at, first_outcome,
  order_id_of, repeat_from, repeat_outcome,
}

pub append_nil : (xs : List Logged) → xs ++ [] ≡ xs
append_nil [] = refl
append_nil (x ∷ xs) = ap (λ ys. x ∷ ys) (append_nil xs)

pub append_assoc : (xs ys zs : List Logged) → (xs ++ ys) ++ zs ≡ xs ++ (ys ++ zs)
append_assoc [] ys zs = refl
append_assoc (x ∷ xs) ys zs = ap (λ rest. x ∷ rest) (append_assoc xs ys zs)

-- An append that succeeds only grows the ledger.
pub append_rows-eq :
    (rows batch rows' : List Logged) → append_rows rows batch ≡ some rows' → rows' ≡ rows ++ batch
unfolding append_rows
append_rows-eq rows [] rows' h = sym (some-injective rows rows' h) ∙ sym (append_nil rows)
append_rows-eq rows ((k, body) ∷ more) rows' h = elim (Bool-cases (key_taken k rows)) [
  | inl e ↦ let stuck = rw e at h in cc
  | inr e ↦
      append_rows-eq (rows ++ (k, body) ∷ []) more rows' (rw e at h)
      ∙ append_assoc rows ((k, body) ∷ []) more
]

-- A batch of two parts is one after the other.
pub append_rows-split :
    (rows xs ys rows' : List Logged)
    → append_rows rows (xs ++ ys) ≡ some rows'
    → append_rows (rows ++ xs) ys ≡ some rows'
unfolding append_rows
append_rows-split rows [] ys rows' h =
    subst (λ x. append_rows x ys ≡ some rows') (sym (append_nil rows)) h
append_rows-split rows ((k, body) ∷ xs) ys rows' h = elim (Bool-cases (key_taken k rows)) [
  | inl e ↦ let stuck = rw e at h in cc
  | inr e ↦
      subst (λ x. append_rows x ys ≡ some rows') (append_assoc rows ((k, body) ∷ []) xs)
        (append_rows-split (rows ++ (k, body) ∷ []) xs ys rows' (rw e at h))
]

-- The first row of a batch that is appended has a key that no row had.
pub append_rows-fresh :
    (rows : List Logged) (k : String) (body : Body) (more rows' : List Logged)
    → append_rows rows ((k, body) ∷ more) ≡ some rows'
    → key_taken k rows ≡ false
unfolding append_rows
append_rows-fresh rows k body more rows' h = elim (Bool-cases (key_taken k rows)) [
  | inl e ↦ let stuck = rw e at h in cc
  | inr e ↦ e
]

-- A key that no row has is found in what follows, and a key that is found stays found.
pub by_key-fresh :
    (rows more : List Logged) (k : String)
    → key_taken k rows ≡ false
    → by_key (rows ++ more) k ≡ by_key more k
unfolding key_taken by_key
by_key-fresh [] more k h = refl
by_key-fresh ((j, body) ∷ rows) more k h = ground (arith, by_key-fresh rows more k)

pub by_key-kept :
    (rows more : List Logged) (k : String) (body : Body)
    → by_key rows k ≡ some body
    → by_key (rows ++ more) k ≡ some body
unfolding by_key
by_key-kept [] more k body h = cc
by_key-kept ((j, b) ∷ rows) more k body h = ground (arith, by_key-kept rows more k body)

-- No row settles an order.
unfoldable pub is_open_order : String → List Logged → Bool
is_open_order id [] = true
is_open_order id ((k, body) ∷ rows) = elim (outcome_at id 0 body) [
  | none ↦ is_open_order id rows
  | some a ↦ false
]

outcome_at-none :
    (id : String) (m n : ℕ) (body : Body)
    → outcome_at id m body ≡ none
    → outcome_at id n body ≡ none
unfolding outcome_at
outcome_at-none id m n (fill_recorded r) h = elim (Bool-cases (str_eq r.order_id id)) [
  | inl e ↦ let stuck = rw e at h in cc
  | inr e ↦ rw e refl
]
outcome_at-none id m n (order_rejected r) h = elim (Bool-cases (str_eq r.order_id id)) [
  | inl e ↦ let stuck = rw e at h in cc
  | inr e ↦ rw e refl
]
outcome_at-none id m n body h = refl

-- Rows that do not settle an order are passed over.
pub first_outcome-open :
    (id : String) (n : ℕ) (rows more : List Logged)
    → is_open_order id rows ≡ true
    → first_outcome id n (rows ++ more) ≡ first_outcome id (n + length rows) more
unfolding first_outcome is_open_order
first_outcome-open id n [] more h = ap (λ m. first_outcome id m more) (omega arith)
first_outcome-open id n ((k, body) ∷ rows) more h = elim (Option-cases (outcome_at id 0 body)) [
  | inr (a, e) ↦ let stuck = rw (is_open_order, e) at h in cc
  | inl e ↦
      rw (first_outcome, outcome_at-none id 0 n body e)
        (first_outcome-open id (suc n) rows more (rw (is_open_order, e) at h)
          ∙ ap (λ m. first_outcome id m more) (omega arith))
]

-- Once an order is settled, what follows does not change how.
pub first_outcome-kept :
    (id : String) (n : ℕ) (rows more : List Logged) (a : Attempt)
    → first_outcome id n rows ≡ some a
    → first_outcome id n (rows ++ more) ≡ some a
unfolding first_outcome
first_outcome-kept id n [] more a h = cc
first_outcome-kept id n ((k, body) ∷ rows) more a h = elim (Option-cases (outcome_at id n body)) [
  | inl e ↦
      rw (first_outcome, e) (first_outcome-kept id (suc n) rows more a (rw (first_outcome, e) at h))
  | inr (b, e) ↦ rw (first_outcome, e) (rw (first_outcome, e) at h)
]

-- A repeat's outcome, once it is one of the ledger's, is that of every later ledger.
pub repeat_outcome-kept :
    (rows more : List Logged) (k : String) (body : Body) (a : Attempt)
    → by_key rows k ≡ some body
    → first_outcome (order_id_of body) 1 rows ≡ some a
    → repeat_outcome (rows ++ more) k ≡ some a
unfolding repeat_outcome repeat_from
repeat_outcome-kept rows more k body a found settled =
    ap (repeat_from (rows ++ more)) (by_key-kept rows more k body found)
    ∙ settled_from (first_outcome-kept (order_id_of body) 1 rows more a settled)
  where
    settled_from :
        first_outcome (order_id_of body) 1 (rows ++ more) ≡ some a
        → repeat_from (rows ++ more) (some body) ≡ some a
    settled_from e = unfold repeat_from in rw (repeat_from, e) refl

pub is_open_order-append :
    (id : String) (xs ys : List Logged)
    → is_open_order id xs ≡ true
    → is_open_order id ys ≡ true
    → is_open_order id (xs ++ ys) ≡ true
unfolding is_open_order
is_open_order-append id [] ys hx hy = hy
is_open_order-append id ((k, body) ∷ xs) ys hx hy = elim (Option-cases (outcome_at id 0 body)) [
  | inr (a, e) ↦ let stuck = rw (is_open_order, e) at hx in cc
  | inl e ↦ rw (is_open_order, e) (is_open_order-append id xs ys (rw (is_open_order, e) at hx) hy)
]

some-ne-none {ℓ} : {A : Type ℓ} {a : A} → some a ≡ none → ⊥
some-ne-none h = cc

in_flight-ne-filled : (f : Fill) → some (rejected in_flight) ≡ some (filled f) → ⊥
in_flight-ne-filled f h = cc

-- A fill that a repeat finds is the one that every later repeat finds.
pub repeat_outcome-filled :
    (rows more : List Logged) (k : String) (f : Fill)
    → repeat_outcome rows k ≡ some (filled f)
    → repeat_outcome (rows ++ more) k ≡ some (filled f)
unfolding repeat_outcome
repeat_outcome-filled rows more k f h = elim (Option-cases (by_key rows k)) [
  | inl e ↦ absurd (some-ne-none (sym h ∙ ap (repeat_from rows) e))
  | inr (body, e) ↦ elim (Option-cases (first_outcome (order_id_of body) 1 rows)) [
    | inl g ↦
        absurd (in_flight-ne-filled f (sym (without body g) ∙ ap (repeat_from rows) (sym e) ∙ h))
    | inr (a, g) ↦
        repeat_outcome-kept rows more k body (filled f) e
          (g ∙ sym (with body a g) ∙ ap (repeat_from rows) (sym e) ∙ h)
  ]
]
  where
    without :
        (body : Body)
        → first_outcome (order_id_of body) 1 rows ≡ none
        → repeat_from rows (some body) ≡ some (rejected in_flight)
    without body g = unfold repeat_from in rw (repeat_from, g) refl

    with :
        (body : Body) (a : Attempt)
        → first_outcome (order_id_of body) 1 rows ≡ some a
        → repeat_from rows (some body) ≡ some a
    with body a g = unfold repeat_from in rw (repeat_from, g) refl
