-- ===== src/Execution/Orders/Drain.antt =====
-- The barrier that the kill switch's flatten waits on, over interleaved calls of `place`:
-- src/pumpgrok/execution/paper_adapter.
use package.text.Mathlib.TextPositions.{eq_refl}
use pump_grok.Prelude.{
  ℕ, Bool, true, false, String, Option, none, some, List, [], ◌∷◌, ◌≡◌, ◌⊎◌, refl, sym, ap, ◌∙◌,
  inl, inr, Bool-cases, some-injective, str_eq, eq_iff, ◌==◌, arith,
}
use pump_grok.Prelude.Lists.{contains}
use pump_grok.Execution.Orders.Calls.{
  Calls, add, discard, update, enter, register, settle, take_cancel, cancel, clear_order,
  clear_owned, leave,
}

abbrev pub no_calls : Calls
no_calls = record { active = []; owned = λ i. none; inflight = []; cancelled = [] }

-- What a call does to the adapter. A call registers one order.
pub data Move (s : Calls) : Calls → Type 0 where
  enters : (key : String) → Move s (enter s key).1
  registers :
      (owner : ℕ) (order_id : String) → s.owned owner ≡ none → Move s (register s owner order_id)
  finishes : (order_id : String) → Move s (settle s order_id)
  checks : (order_id : String) → Move s (take_cancel s order_id).1
  cancels : (order_id : String) → Move s (cancel s order_id).1
  leaves : (owns_key : Bool) (key : String) (owner : ℕ) → Move s (leave s owns_key key owner)

pub data Reach : Calls → Type 0 where
  start : Reach no_calls
  after : {s t : Calls} → Reach s → Move s t → Reach t

-- Every order in flight was registered by a call that has not left.
unfoldable IsOwned : Calls → Type 0
IsOwned s =
    (order_id : String)
    → contains order_id s.inflight ≡ true
    → (owner : ℕ) × (s.owned owner ≡ some order_id)

contains-discard :
    (k j : String) (ks : List String)
    → contains k (discard j ks) ≡ true
    → (contains k ks ≡ true) × (str_eq j k ≡ false)
unfolding contains discard
contains-discard k j [] h = cc
contains-discard k j (x ∷ ks) h = elim (Bool-cases (str_eq x j)) [
  | inl e ↦
      let (there, other) = contains-discard k j ks (rw e at h) in
      (ground (arith, eq_iff x j, eq_iff x k, eq_iff j k), other)
  | inr e ↦ elim (Bool-cases (str_eq x k)) [
    | inl g ↦ (rw g refl, ground (arith, eq_iff x j, eq_iff x k, eq_iff j k))
    | inr g ↦ let (there, other) = contains-discard k j ks (rw (e, g) at h) in (rw g there, other)
  ]
]

contains-add :
    (k j : String) (ks : List String)
    → contains k (add j ks) ≡ true
    → (str_eq j k ≡ true) ⊎ (contains k ks ≡ true)
unfolding contains add
contains-add k j ks h = elim (Bool-cases (contains j ks)) [
  | inl e ↦ inr (rw (add, e) at h)
  | inr e ↦ elim (Bool-cases (str_eq j k)) [
    | inl g ↦ inl g
    | inr g ↦ inr (let there = rw (add, e) at h in rw (contains, g) at there)
  ]
]

text-eq : (a b : String) → str_eq a b ≡ true → a ≡ b
text-eq a b h = ground (arith, eq_iff a b)

update-same : (f : ℕ → Option String) (i : ℕ) (o : Option String) → update f i o i ≡ o
unfolding update
update-same f i o = ground arith

update-other :
    (f : ℕ → Option String) (i j : ℕ) (o : Option String) → j == i ≡ false → update f i o j ≡ f j
unfolding update
update-other f i j o h = rw h refl

eq-nat : (i j : ℕ) → i == j ≡ true → i ≡ j
eq-nat i j h = ground arith

-- An owner that is registered keeps its order when another call registers.
register-IsOwned :
    (s : Calls) (owner : ℕ) (order_id : String)
    → s.owned owner ≡ none
    → IsOwned s
    → IsOwned (register s owner order_id)
unfolding register IsOwned
register-IsOwned s owner order_id free w id h = elim (contains-add id order_id s.inflight h) [
  | inl e ↦ (owner, update-same s.owned owner (some order_id) ∙ ap some (text-eq order_id id e))
  | inr there ↦ kept (w id there)
]
  where
    kept :
        (i : ℕ) × (s.owned i ≡ some id)
        → (i : ℕ) × (update s.owned owner (some order_id) i ≡ some id)
    kept (i, held) = elim (Bool-cases (i == owner)) [
      | inl e ↦ let stuck = sym held ∙ ap s.owned (eq-nat i owner e) ∙ free in cc
      | inr e ↦ (i, update-other s.owned owner i (some order_id) e ∙ held)
    ]

clear_order-IsOwned :
    (s : Calls) (owner : ℕ) (o : Option String)
    → s.owned owner ≡ o
    → IsOwned s
    → IsOwned (clear_order s owner o)
unfolding clear_order IsOwned
clear_order-IsOwned s owner none held w id h = w id h
clear_order-IsOwned s owner (some order_id) held w id h =
    let (there, other) = contains-discard id order_id s.inflight h in kept other (w id there)
  where
    differ : order_id ≡ id → str_eq order_id id ≡ false → ⊥
    differ same other = ground (arith, eq_iff order_id id)

    kept :
        str_eq order_id id ≡ false
        → (i : ℕ) × (s.owned i ≡ some id)
        → (i : ℕ) × (update s.owned owner none i ≡ some id)
    kept other (i, mine) = elim (Bool-cases (i == owner)) [
      | inl e ↦
          let same =
            some-injective order_id id (sym held ∙ ap s.owned (sym (eq-nat i owner e)) ∙ mine) in
          absurd (differ same other)
      | inr e ↦ (i, update-other s.owned owner i none e ∙ mine)
    ]

discard-IsOwned :
    (s : Calls) (order_id : String)
    → IsOwned s
    → (id : String) → contains id (discard order_id s.inflight) ≡ true
    → (owner : ℕ) × (s.owned owner ≡ some id)
unfolding IsOwned
discard-IsOwned s order_id w id h = w id (contains-discard id order_id s.inflight h).0

Move-IsOwned : {s t : Calls} → Move s t → IsOwned s → IsOwned t
unfolding enter settle take_cancel cancel leave clear_owned IsOwned
Move-IsOwned (enters key) w = w
Move-IsOwned {s} (registers owner order_id free) w = register-IsOwned s owner order_id free w
Move-IsOwned {s} (finishes order_id) w = discard-IsOwned s order_id w
Move-IsOwned {s} (checks order_id) w = elim (Bool-cases (contains order_id s.cancelled)) [
  | inl e ↦ rw (take_cancel, e) (discard-IsOwned s order_id w)
  | inr e ↦ rw (take_cancel, e) w
]
Move-IsOwned {s} (cancels order_id) w = elim (Bool-cases (contains order_id s.inflight)) [
  | inl e ↦ rw (cancel, e) w
  | inr e ↦ rw (cancel, e) w
]
Move-IsOwned {s} (leaves true key owner) w =
    clear_order-IsOwned (record s { active = discard key s.active }) owner _ refl w
Move-IsOwned {s} (leaves false key owner) w = clear_order-IsOwned s owner _ refl w

Reach-IsOwned : {s : Calls} → Reach s → IsOwned s
unfolding contains IsOwned
Reach-IsOwned start = λ id h. cc
Reach-IsOwned (after reach move) = Move-IsOwned move (Reach-IsOwned reach)

-- However calls of `place` and `cancel` interleave, every order in the barrier is owned by a call that
-- registered it and has not left; so once every call has left, the barrier is empty.
pub Reach-drains :
    {s : Calls}
    → Reach s
    → ((order_id : String)
        → contains order_id s.inflight ≡ true
        → (owner : ℕ) × (s.owned owner ≡ some order_id))
      × (((owner : ℕ) → s.owned owner ≡ none) → s.inflight ≡ [])
unfolding contains IsOwned
Reach-drains {s} reach = (Reach-IsOwned reach, λ left. empty s.inflight (Reach-IsOwned reach) left)
  where
    empty :
        (ids : List String)
        → ((id : String) → contains id ids ≡ true → (owner : ℕ) × (s.owned owner ≡ some id))
        → ((owner : ℕ) → s.owned owner ≡ none)
        → ids ≡ []
    empty [] w left = refl
    empty (id ∷ ids) w left =
        let (owner, held) = w id (unfold contains in rw (contains, eq_refl id) refl) in
        let stuck = sym held ∙ left owner in cc
