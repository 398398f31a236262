-- ===== src/Risk/Claim/Exclusive.antt =====
-- A probe is held by one order.
use pump_grok.Prelude.{
  ℕ, ◌≡◌, ◌⊎◌, refl, Bool, true, false, not, ◌&&◌, String, Option, none, some, List, [], ◌∷◌, arith,
  eq_iff, inl, inr, Bool-cases, some-injective, ap, sym, subst, ◌∙◌,
}
use pump_grok.Risk.Breaker.{Breaker, is_open, admit_probe}
use pump_grok.Risk.Claim.{
  Name, data_stale, loss_velocity, exec_errors, by_name, with_breaker, read_all, filter_names,
  owner_of, with_owner, drop_settled, is_owner, ProbeView, Desk, snapshot_probes, claim_free,
  claim_probe, take_probe, no_names, kept_if,
}

-- The order holds the probe of a breaker.
abbrev pub Holds : Desk → String → Name → Type 0
Holds d hash n = (owner_of d.owners n ≡ some hash) × ((by_name d.breakers n).probe_inflight ≡ true)

snapshot-Holds :
    (d : Desk) (hash other : String) (now : ℕ) (n : Name)
    → Holds d hash n
    → Holds (snapshot_probes d other now).1 hash n
unfolding snapshot_probes drop_settled read_all by_name owner_of is_open
snapshot-Holds d hash other now data_stale h = (ground arith, ground arith)
snapshot-Holds d hash other now loss_velocity h = (ground arith, ground arith)
snapshot-Holds d hash other now exec_errors h = (ground arith, ground arith)

-- A breaker that admits a probe had none in flight, and has one then.
admitted :
    (b : Breaker) (now : ℕ)
    → (admit_probe b now).0 ≡ true
    → (b.probe_inflight ≡ false) × ((admit_probe b now).1.probe_inflight ≡ true)
unfolding admit_probe is_open
admitted b now h = (ground arith, ground arith)

abbrev with_probe : Desk → String → Name → Breaker → Desk
with_probe d hash m b = record {
  breakers = with_breaker d.breakers m b;
  owners = with_owner d.owners m hash;
}

with_probe-Holds :
    (d : Desk) (hash other : String) (b : Breaker) (m n : Name)
    → Holds d hash n
    → (by_name d.breakers m).probe_inflight ≡ false
    → Holds (with_probe d other m b) hash n
unfolding with_owner with_breaker owner_of by_name
with_probe-Holds d hash other b data_stale data_stale h free = cc
with_probe-Holds d hash other b data_stale loss_velocity h free = h
with_probe-Holds d hash other b data_stale exec_errors h free = h
with_probe-Holds d hash other b loss_velocity data_stale h free = h
with_probe-Holds d hash other b loss_velocity loss_velocity h free = cc
with_probe-Holds d hash other b loss_velocity exec_errors h free = h
with_probe-Holds d hash other b exec_errors data_stale h free = h
with_probe-Holds d hash other b exec_errors loss_velocity h free = h
with_probe-Holds d hash other b exec_errors exec_errors h free = cc

with_probe-own :
    (d : Desk) (hash : String) (b : Breaker) (m : Name)
    → b.probe_inflight ≡ true
    → Holds (with_probe d hash m b) hash m
unfolding with_owner with_breaker owner_of by_name
with_probe-own d hash b data_stale h = (refl, h)
with_probe-own d hash b loss_velocity h = (refl, h)
with_probe-own d hash b exec_errors h = (refl, h)

none-ne-some {ℓ} : {A : Type ℓ} {a : A} → none ≡ some a → ⊥
none-ne-some h = cc

-- A claim on the free breakers puts one probe in flight, on a breaker that had none.
claim_free-one :
    (d d' : Desk) (hash : String) (now : ℕ) (ns : List Name) (p : Bool)
    → claim_free d hash now ns ≡ some (p, d')
    → (m : Name) × (b : Breaker) × ((by_name d.breakers m).probe_inflight ≡ false)
      × (b.probe_inflight ≡ true)
      × (p ≡ true)
      × (with_probe d hash m b ≡ d')
unfolding claim_free
claim_free-one d d' hash now [] p e = cc
claim_free-one d d' hash now (m ∷ ns) p e =
    elim (Bool-cases (admit_probe (by_name d.breakers m) now).0) [
      | inl admits ↦
          let same = some-injective _ (p, d') (rw admits at e) in
          let free = admitted (by_name d.breakers m) now admits in
          (
            m,
            (admit_probe (by_name d.breakers m) now).1,
            free.0,
            free.1,
            ap (λ (x : Bool × Desk). x.0) (sym same),
            ap (λ (x : Bool × Desk). x.1) same,
          )
      | inr refuses ↦ absurd (none-ne-some (rw refuses at e))
    ]

-- The three ways in which a claim passes.
claim_probe-cases :
    (probing : Bool) (d d' : Desk) (hash : String) (now : ℕ) (view : ProbeView) (p : Bool)
    → claim_probe probing d hash now view ≡ some (p, d')
    → ((p ≡ false) × (d ≡ d') × ((probing && not (no_names view.half_all)) ≡ false))
      ⊎ ((p ≡ true) × (d ≡ d') × (no_names view.owned ≡ false))
      ⊎ (claim_free d hash now view.half_avail ≡ some (p, d'))
unfolding claim_probe
claim_probe-cases probing d d' hash now view p e =
    elim (Bool-cases (probing && not (no_names view.half_all))) [
      | inr outside ↦
          let same = some-injective _ (p, d') (rw outside at e) in
          inl
            (ap (λ (x : Bool × Desk). x.0) (sym same), ap (λ (x : Bool × Desk). x.1) same, outside)
      | inl inside ↦ elim (Bool-cases (no_names view.owned)) [
        | inl free ↦ inr (inr (rw (inside, free) at e))
        | inr owned ↦
            let same = some-injective _ (p, d') (rw (inside, owned) at e) in
            inr (
              inl (
                ap (λ (x : Bool × Desk). x.0) (sym same),
                ap (λ (x : Bool × Desk). x.1) same,
                owned,
              ))
      ]
    ]

claim_probe-Holds :
    (probing : Bool) (d d' : Desk) (hash other : String) (now : ℕ) (view : ProbeView) (p : Bool)
    (n : Name)
    → Holds d hash n
    → claim_probe probing d other now view ≡ some (p, d')
    → Holds d' hash n
claim_probe-Holds probing d d' hash other now view p n h e =
    elim (claim_probe-cases probing d d' other now view p e) [
      | inl (_, same, _) ↦ subst (λ x. Holds x hash n) same h
      | inr (inl (_, same, _)) ↦ subst (λ x. Holds x hash n) same h
      | inr (inr taken) ↦
          let (m, b, free, _, _, same) = claim_free-one d d' other now view.half_avail p taken in
          subst (λ x. Holds x hash n) same (with_probe-Holds d hash other b m n h free)
    ]

filter_names_some :
    (f : Name → Bool) (ns : List Name)
    → no_names (filter_names f ns) ≡ false
    → (n : Name) × (f n ≡ true)
unfolding filter_names
filter_names_some f [] h = cc
filter_names_some f (n ∷ ns) h = elim (Bool-cases (f n)) [
  | inl found ↦ (n, found)
  | inr missing ↦ filter_names_some f ns (rw missing at h)
]

is_open_inflight : (b : Breaker) (now : ℕ) → (is_open b now).1.probe_inflight ≡ b.probe_inflight
unfolding is_open
is_open_inflight b now = ground arith

true-ne-false : true ≡ false → ⊥
true-ne-false h = cc

kept :
    (hash : String) (b : Bool) (o : Option String)
    → is_owner hash (kept_if b o) ≡ true
    → (kept_if b o ≡ some hash) × (b ≡ true)
kept hash true (some h) e = (ap some ((eq_iff h hash).0 e), refl)
kept hash true none e = absurd (true-ne-false (sym e))
kept hash false o e = absurd (true-ne-false (sym e))

-- An owner that the snapshot keeps has its probe in flight.
kept-Holds :
    (d : Desk) (hash : String) (now : ℕ) (n : Name)
    → is_owner hash (owner_of (drop_settled d.breakers d.owners) n) ≡ true
    → Holds (snapshot_probes d hash now).1 hash n
unfolding snapshot_probes drop_settled read_all by_name owner_of
kept-Holds d hash now data_stale h =
    let k = kept hash _ _ h in (k.0, is_open_inflight d.breakers.stale now ∙ k.1)
kept-Holds d hash now loss_velocity h =
    let k = kept hash _ _ h in (k.0, is_open_inflight d.breakers.velocity now ∙ k.1)
kept-Holds d hash now exec_errors h =
    let k = kept hash _ _ h in (k.0, is_open_inflight d.breakers.errors now ∙ k.1)

-- A breaker that the view lists as half-open, before the clock is read.
abbrev pub sees_half_open : Desk → String → ℕ → Bool
sees_half_open d hash now = not (no_names (snapshot_probes d hash now).0.half_all)

owned_found :
    (d : Desk) (hash : String) (now : ℕ)
    → no_names (snapshot_probes d hash now).0.owned ≡ false
    → (n : Name) × Holds (snapshot_probes d hash now).1 hash n
unfolding snapshot_probes
owned_found d hash now h =
    let (n, found) =
      filter_names_some (λ n. is_owner hash (owner_of (drop_settled d.breakers d.owners) n)) _ h in
    (n, kept-Holds d hash now n found)

-- A check that passes its part on the probes takes none from another order: every order that held
-- the probe of a breaker holds it still. An order that leaves with the probe flag holds the probe
-- of some breaker, and a buy that sees a half-open breaker leaves with the flag.
pub take_probe_lem :
    (probing : Bool) (d d' : Desk) (hash : String) (now later : ℕ) (p : Bool)
    → take_probe probing d hash now later ≡ some (p, d')
    → ((other : String) (n : Name) → Holds d other n → Holds d' other n)
      × (p ≡ true → (n : Name) × Holds d' hash n)
      × ((probing && sees_half_open d hash now) ≡ true → p ≡ true)
unfolding take_probe
take_probe_lem probing d d' hash now later p e =
    let seen = snapshot_probes d hash now in
    (
      λ other n h.
          claim_probe-Holds probing seen.1 d' other hash later seen.0 p n
            (snapshot-Holds d other hash now n h) e,
      λ flagged. elim (claim_probe-cases probing seen.1 d' hash later seen.0 p e) [
        | inl (out, _, _) ↦ absurd (true-ne-false (sym flagged ∙ out))
        | inr (inl (_, same, owned)) ↦
            let (n, h) = owned_found d hash now owned in (n, subst (λ x. Holds x hash n) same h)
        | inr (inr taken) ↦
            let (m, b, _, live, _, same) =
              claim_free-one seen.1 d' hash later seen.0.half_avail p taken in
            (m, subst (λ x. Holds x hash m) same (with_probe-own seen.1 hash b m live))
      ],
      λ inside. elim (claim_probe-cases probing seen.1 d' hash later seen.0 p e) [
        | inl (_, _, outside) ↦ absurd (true-ne-false (sym inside ∙ outside))
        | inr (inl (flagged, _, _)) ↦ flagged
        | inr (inr taken) ↦
            let (_, _, _, _, flagged, _) =
              claim_free-one seen.1 d' hash later seen.0.half_avail p taken in
            flagged
      ],
    )
