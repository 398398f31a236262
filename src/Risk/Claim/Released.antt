-- ===== src/Risk/Claim/Released.antt =====
-- The probes that an order's end releases: src/pumpgrok/risk/engine/core.py.
use pump_grok.Prelude.{ℕ, Bool, true, false, String, none, ◌≡◌, refl, ap, ◌∙◌, inl, inr, Bool-cases}
use pump_grok.Risk.Claim.{
  Name, data_stale, loss_velocity, exec_errors, by_name, owner_of, is_owner, Desk,
}
use pump_grok.Risk.Claim.Release.{release_entry, release_entries, release_order_probes}
use pump_grok.Risk.Claim.Settling.{
  IsUntouched, IsOther, stale_velocity, stale_errors, velocity_stale, velocity_errors, errors_stale,
  errors_velocity, owner_of-without, settle_probe-IsSettled,
}

-- What a release does to one name: it is released if the order owned it, else left.
pub record IsReleasedFrom (d d' : Desk) (hash : String) (n : Name) : Type 0 where
  pub owned : is_owner hash (owner_of d.owners n) ≡ true → owner_of d'.owners n ≡ none
  pub freed :
      is_owner hash (owner_of d.owners n) ≡ true → (by_name d'.breakers n).probe_inflight ≡ false
  pub kept : is_owner hash (owner_of d.owners n) ≡ false → IsUntouched d d' n

untouched : (d : Desk) (n : Name) → IsUntouched d d n
untouched d n = record { breaker = refl; owner = refl }

true-ne-false {ℓ} : {A : Type ℓ} {b : Bool} → b ≡ true → b ≡ false → A
true-ne-false h g = cc

-- An entry's release, for its name and for another.
release_entry-own :
    (d : Desk) (hash : String) (ok : Bool) (now : ℕ) (n : Name)
    → IsReleasedFrom d (release_entry d hash ok now n).1 hash n
unfolding release_entry
release_entry-own d hash ok now n = elim (Bool-cases (is_owner hash (owner_of d.owners n))) [
  | inr e ↦
      rw (release_entry, e)
        (record {
          owned = λ h. true-ne-false h e;
          freed = λ h. true-ne-false h e;
          kept = λ h. untouched d n;
        })
  | inl e ↦ elim (Bool-cases (by_name d.breakers n).probe_inflight) [
    | inr free ↦
        rw (release_entry, e, free)
          (record {
            owned = λ h. owner_of-without d.owners n;
            freed = λ h. free;
            kept = λ h. true-ne-false e h;
          })
    | inl flying ↦
        let (out, settled, w) = settle_probe-IsSettled d n ok now flying in
        rw (release_entry, e, flying, settled)
          (record {
            owned = λ h. w.released.unowned;
            freed = λ h. w.released.free;
            kept = λ h. true-ne-false e h;
          })
  ]
]

release_entry-other :
    (d : Desk) (hash : String) (ok : Bool) (now : ℕ) (n m : Name)
    → IsOther m n
    → IsUntouched d (release_entry d hash ok now n).1 m
unfolding release_entry
release_entry-other d hash ok now n m other =
    elim (Bool-cases (is_owner hash (owner_of d.owners n))) [
      | inr e ↦ rw (release_entry, e) (untouched d m)
      | inl e ↦ elim (Bool-cases (by_name d.breakers n).probe_inflight) [
        | inr free ↦
            rw (release_entry, e, free) (record { breaker = refl; owner = other.owner d.owners })
        | inl flying ↦
            let (out, settled, w) = settle_probe-IsSettled d n ok now flying in
            rw (release_entry, e, flying, settled) (w.others m other)
      ]
    ]

between :
    (d a b c : Desk) (hash : String) (n : Name)
    → IsUntouched d a n
    → IsReleasedFrom a b hash n
    → IsUntouched b c n
    → IsReleasedFrom d c hash n
between d a b c hash n before w after = record {
  owned = λ h. after.owner ∙ w.owned (ap (is_owner hash) before.owner ∙ h);
  freed =
      λ h. ap (λ x. x.probe_inflight) after.breaker ∙ w.freed (ap (is_owner hash) before.owner ∙ h);
  kept = λ h.
      let left = w.kept (ap (is_owner hash) before.owner ∙ h) in
      record {
        breaker = after.breaker ∙ left.breaker ∙ before.breaker;
        owner = after.owner ∙ left.owner ∙ before.owner;
      };
}

both : (d a b : Desk) (n : Name) → IsUntouched d a n → IsUntouched a b n → IsUntouched d b n
both d a b n x y = record { breaker = y.breaker ∙ x.breaker; owner = y.owner ∙ x.owner }

-- The desk after each of the three names in turn.
abbrev after_stale : Desk → String → Bool → ℕ → Desk
after_stale d hash ok now = (release_entry d hash ok now data_stale).1

abbrev after_velocity : Desk → String → Bool → ℕ → Desk
after_velocity d hash ok now =
    (release_entry (after_stale d hash ok now) hash ok now loss_velocity).1

abbrev after_errors : Desk → String → Bool → ℕ → Desk
after_errors d hash ok now =
    (release_entry (after_velocity d hash ok now) hash ok now exec_errors).1

in_turn :
    (d : Desk) (hash : String) (ok : Bool) (now : ℕ) (n : Name)
    → IsReleasedFrom d (after_errors d hash ok now) hash n
in_turn d hash ok now data_stale =
    let d1 = after_stale d hash ok now in
    let d2 = after_velocity d hash ok now in
    between d d d1 (after_errors d hash ok now) hash data_stale (untouched d data_stale)
      (release_entry-own d hash ok now data_stale)
      (both d1 d2 (after_errors d hash ok now) data_stale
        (release_entry-other d1 hash ok now loss_velocity data_stale stale_velocity)
        (release_entry-other d2 hash ok now exec_errors data_stale stale_errors))
in_turn d hash ok now loss_velocity =
    let d1 = after_stale d hash ok now in
    let d2 = after_velocity d hash ok now in
    between d d1 d2 (after_errors d hash ok now) hash loss_velocity
      (release_entry-other d hash ok now data_stale loss_velocity velocity_stale)
      (release_entry-own d1 hash ok now loss_velocity)
      (release_entry-other d2 hash ok now exec_errors loss_velocity velocity_errors)
in_turn d hash ok now exec_errors =
    let d1 = after_stale d hash ok now in
    let d2 = after_velocity d hash ok now in
    between d d2 (after_errors d hash ok now) (after_errors d hash ok now) hash exec_errors
      (both d d1 d2 exec_errors
        (release_entry-other d hash ok now data_stale exec_errors errors_stale)
        (release_entry-other d1 hash ok now loss_velocity exec_errors errors_velocity))
      (release_entry-own d2 hash ok now exec_errors)
      (untouched (after_errors d hash ok now) exec_errors)

-- A final outcome of an order releases every probe that the order owns, whether it succeeded or
-- not: afterwards it owns none, and those breakers have no probe in flight. The breakers that it
-- does not own, and their owners, are left as they are.
pub release_order_probes-IsReleasedFrom :
    (d : Desk) (hash : String) (ok : Bool) (now : ℕ) (n : Name)
    → IsReleasedFrom d (release_order_probes d hash ok now).1 hash n
unfolding release_order_probes release_entries
release_order_probes-IsReleasedFrom d hash ok now n = in_turn d hash ok now n
