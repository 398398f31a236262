-- ===== src/Execution/Orders/Unique.antt =====
-- One row for each key, and so one order for each decision and one consumption for each approval: the ledger's UNIQUE column under
-- src/pumpgrok/execution/paper_adapter.
use pump_grok.Prelude.{
  ℕ, ◌+◌, ◌≤◌, Bool, true, false, not, ◌&&◌, ◌||◌, String, some, List, [], ◌∷◌, ◌++◌, ◌≡◌, refl,
  subst, inl, inr, Bool-cases, arith, str_eq, eq_iff, some-injective, if◌then◌else◌,
}
use pump_grok.Ledger.Events.{Body, OrderPlaced, order_placed, ApprovalRecorded, approval_recorded}
use pump_grok.Core.Idempotency.{Codec, exec_place_key}
use pump_grok.Risk.KillSwitch.Model.{Logged}
use pump_grok.Risk.KillSwitch.Clear.{key_taken}
use pump_grok.Execution.Orders.Journal.{append_rows}
use pump_grok.Execution.Orders.Batch.{consume_key}

unfoldable pub count_key : String → List Logged → ℕ
count_key k [] = 0
count_key k ((j, body) ∷ rows) = (if str_eq j k then 1 else 0) + count_key k rows

abbrev pub of_decision : String → String → String → OrderPlaced → Bool
of_decision ticket_id side decision_id o =
    str_eq o.ticket_id ticket_id && str_eq o.side side && str_eq o.decision_id decision_id

-- The orders that are placed for one ticket, side and decision.
unfoldable pub is_order_of : String → String → String → Body → Bool
is_order_of ticket_id side decision_id (order_placed o) = of_decision ticket_id side decision_id o
is_order_of ticket_id side decision_id body = false

unfoldable pub count_orders : String → String → String → List Logged → ℕ
unfolding is_order_of
count_orders ticket_id side decision_id [] = 0
count_orders ticket_id side decision_id ((k, body) ∷ rows) =
    (if is_order_of ticket_id side decision_id body then 1 else 0)
    + count_orders ticket_id side decision_id rows

-- Whether a row consumes an approval for an order: the clears of a kill switch and of a halt consume
-- theirs without one.
abbrev pub spends : ApprovalRecorded → Bool
spends row =
    row.consumed && not (str_eq row.kind "killswitch_clear" || str_eq row.kind "halt_clear")

unfoldable pub is_spend_of : String → Body → Bool
is_spend_of id (approval_recorded row) = str_eq row.id id && spends row
is_spend_of id body = false

-- The rows that consume an approval for an order.
unfoldable pub count_spends : String → List Logged → ℕ
unfolding is_spend_of
count_spends id [] = 0
count_spends id ((k, body) ∷ rows) = (if is_spend_of id body then 1 else 0) + count_spends id rows

-- Whether every row that places an order has the key of its decision, and every row that consumes an
-- approval for an order the key of that approval.
unfoldable pub is_keyed : Codec → String → Body → Bool
unfolding exec_place_key consume_key
is_keyed c k (order_placed o) = str_eq k (exec_place_key c o.ticket_id o.side o.decision_id)
is_keyed c k (approval_recorded row) = if spends row then str_eq k (consume_key row.id) else true
is_keyed c k body = true

unfoldable pub all_keyed : Codec → List Logged → Bool
unfolding is_keyed
all_keyed c [] = true
all_keyed c ((k, body) ∷ rows) = is_keyed c k body && all_keyed c rows

pub record IsSingle (c : Codec) (rows : List Logged) : Type 0 where
  pub unique : (k : String) → count_key k rows ≤ 1
  pub keyed : all_keyed c rows ≡ true

count_key-append :
    (k : String) (xs ys : List Logged) → count_key k (xs ++ ys) ≡ count_key k xs + count_key k ys
unfolding count_key
count_key-append k [] ys = omega arith
count_key-append k ((j, body) ∷ xs) ys = omega (arith, count_key-append k xs ys)

count_key-fresh :
    (k : String) (rows : List Logged) → key_taken k rows ≡ false → count_key k rows ≡ 0
unfolding count_key key_taken
count_key-fresh k [] h = refl
count_key-fresh k ((j, body) ∷ rows) h = elim (Bool-cases (str_eq j k)) [
  | inl e ↦ let stuck = rw e at h in cc
  | inr e ↦ rw e (omega (arith, count_key-fresh k rows (rw e at h)))
]

pub all_keyed-append :
    (c : Codec) (xs ys : List Logged)
    → all_keyed c xs ≡ true
    → all_keyed c ys ≡ true
    → all_keyed c (xs ++ ys) ≡ true
unfolding all_keyed
all_keyed-append c [] ys hx hy = hy
all_keyed-append c ((k, body) ∷ xs) ys hx hy = elim (Bool-cases (is_keyed c k body)) [
  | inl e ↦ rw (all_keyed, e) (all_keyed-append c xs ys (rw (all_keyed, e) at hx) hy)
  | inr e ↦ let stuck = rw (all_keyed, e) at hx in cc
]

-- One more row with a key that no row has.
unique-snoc :
    (rows : List Logged) (k : String) (body : Body)
    → ((j : String) → count_key j rows ≤ 1)
    → key_taken k rows ≡ false
    → (j : String) → count_key j (rows ++ (k, body) ∷ []) ≤ 1
unfolding count_key
unique-snoc rows k body unique fresh j = elim (Bool-cases (str_eq k j)) [
  | inl e ↦
      let none_there =
        count_key-fresh j rows (subst (λ x. key_taken x rows ≡ false) (eq_of k j e) fresh) in
      rw (count_key-append j rows ((k, body) ∷ []), none_there, e) (omega arith)
  | inr e ↦ rw (count_key-append j rows ((k, body) ∷ []), e) (omega (arith, unique j))
]
  where
    eq_of : (a b : String) → str_eq a b ≡ true → a ≡ b
    eq_of a b h = ground (arith, eq_iff a b)

-- An append of keyed rows keeps the ledger single.
pub append_rows-IsSingle :
    (c : Codec) (rows batch rows' : List Logged)
    → IsSingle c rows
    → all_keyed c batch ≡ true
    → append_rows rows batch ≡ some rows'
    → IsSingle c rows'
unfolding append_rows all_keyed
append_rows-IsSingle c rows [] rows' w b h = subst (IsSingle c) (some-injective rows rows' h) w
append_rows-IsSingle c rows ((k, body) ∷ more) rows' w b h = elim (Bool-cases (key_taken k rows)) [
  | inl e ↦ let stuck = rw (append_rows, e) at h in cc
  | inr e ↦ elim (Bool-cases (is_keyed c k body)) [
    | inr g ↦ let stuck = rw (all_keyed, g) at b in cc
    | inl g ↦
        append_rows-IsSingle c (rows ++ (k, body) ∷ []) more rows'
          (record {
            unique = unique-snoc rows k body w.unique e;
            keyed = all_keyed-append c rows ((k, body) ∷ []) w.keyed (rw (all_keyed, g) refl);
          })
          (rw (all_keyed, g) at b) (rw (append_rows, e) at h)
  ]
]

is_order_of-keyed :
    (c : Codec) (t s d k : String) (body : Body)
    → is_keyed c k body ≡ true
    → is_order_of t s d body ≡ true
    → str_eq k (exec_place_key c t s d) ≡ true
unfolding is_keyed is_order_of
is_order_of-keyed c t s d k (order_placed o) keyed order =
    let (front, decision) = both _ (str_eq o.decision_id d) order in
    let (ticket, side) = both (str_eq o.ticket_id t) (str_eq o.side s) front in
    subst (λ x. str_eq k x ≡ true)
      (same_key (eq_at o.ticket_id t ticket) (eq_at o.side s side) (eq_at o.decision_id d decision))
      keyed
  where
    both : (a b : Bool) → a && b ≡ true → (a ≡ true) × (b ≡ true)
    both true b h = (refl, h)
    both false b h = cc

    eq_at : (a b : String) → str_eq a b ≡ true → a ≡ b
    eq_at a b h = ground (arith, eq_iff a b)

    same_key :
        o.ticket_id ≡ t
        → o.side ≡ s
        → o.decision_id ≡ d
        → exec_place_key c o.ticket_id o.side o.decision_id ≡ exec_place_key c t s d
    same_key x y z = cc
is_order_of-keyed c t s d k body keyed order = cc

-- No more orders for a decision than rows with its key.
pub count_orders-le :
    (c : Codec) (t s d : String) (rows : List Logged)
    → all_keyed c rows ≡ true
    → count_orders t s d rows ≤ count_key (exec_place_key c t s d) rows
unfolding count_orders count_key all_keyed
count_orders-le c t s d [] h = omega arith
count_orders-le c t s d ((k, body) ∷ rows) h = elim (Bool-cases (is_keyed c k body)) [
  | inr e ↦ let stuck = rw (all_keyed, e) at h in cc
  | inl e ↦
      let rest = count_orders-le c t s d rows (rw (all_keyed, e) at h) in
      elim (Bool-cases (is_order_of t s d body)) [
        | inl g ↦ rw (g, is_order_of-keyed c t s d k body e g) (omega (arith, rest))
        | inr g ↦ ground (arith, rest)
      ]
]

is_spend_of-keyed :
    (c : Codec) (id k : String) (body : Body)
    → is_keyed c k body ≡ true
    → is_spend_of id body ≡ true
    → str_eq k (consume_key id) ≡ true
unfolding is_keyed is_spend_of
is_spend_of-keyed c id k (approval_recorded row) keyed spend =
    let (named, spent) = both (str_eq row.id id) (spends row) spend in
    subst (λ x. str_eq k (consume_key x) ≡ true) (eq_at row.id id named) (rw spent at keyed)
  where
    both : (a b : Bool) → a && b ≡ true → (a ≡ true) × (b ≡ true)
    both true b h = (refl, h)
    both false b h = cc

    eq_at : (a b : String) → str_eq a b ≡ true → a ≡ b
    eq_at a b h = ground (arith, eq_iff a b)
is_spend_of-keyed c id k body keyed spend = cc

-- No more rows that consume an approval than rows with its key.
pub count_spends-le :
    (c : Codec) (id : String) (rows : List Logged)
    → all_keyed c rows ≡ true
    → count_spends id rows ≤ count_key (consume_key id) rows
unfolding count_spends count_key all_keyed
count_spends-le c id [] h = omega arith
count_spends-le c id ((k, body) ∷ rows) h = elim (Bool-cases (is_keyed c k body)) [
  | inr e ↦ let stuck = rw (all_keyed, e) at h in cc
  | inl e ↦
      let rest = count_spends-le c id rows (rw (all_keyed, e) at h) in
      elim (Bool-cases (is_spend_of id body)) [
        | inl g ↦ rw (g, is_spend_of-keyed c id k body e g) (omega (arith, rest))
        | inr g ↦ ground (arith, rest)
      ]
]
