-- ===== src/Risk/Claim/Settling.antt =====
-- A probe that is settled, and what that leaves of the other breakers: src/pumpgrok/risk/breakers.py
-- and src/pumpgrok/risk/engine/core.py.
use pump_grok.Prelude.{ℕ, ◌+◌, Bool, true, false, none, some, List, ◌≡◌, refl, ap, ◌∙◌, arith}
use pump_grok.Risk.Breaker.{Breaker, phase, is_open, resolve_probe, record_success}
use pump_grok.Risk.Claim.{
  Name, data_stale, loss_velocity, exec_errors, BreakerSet, by_name, with_breaker, Owners, owner_of,
  Desk,
}
use pump_grok.Risk.Claim.Release.{Change, transition, resolve_in, without_owner, settle_probe}

-- The breaker and the owner of a name are those of another desk.
pub record IsUntouched (d d' : Desk) (n : Name) : Type 0 where
  pub breaker : by_name d'.breakers n ≡ by_name d.breakers n
  pub owner : owner_of d'.owners n ≡ owner_of d.owners n

pub record IsReleased (d : Desk) (n : Name) : Type 0 where
  pub free : (by_name d.breakers n).probe_inflight ≡ false
  pub unowned : owner_of d.owners n ≡ none

phase-probe : (b : Breaker) (now : ℕ) → (phase b now).1.probe_inflight ≡ b.probe_inflight
unfolding phase is_open
phase-probe b now = ground arith

record_success-probe : (b : Breaker) → (record_success b).probe_inflight ≡ b.probe_inflight
unfolding record_success
record_success-probe b = ground arith

-- A probe in flight is resolved, and is not in flight then.
resolve_probe-free :
    (b : Breaker) (ok : Bool) (now : ℕ)
    → b.probe_inflight ≡ true
    → (b' : Breaker) × (resolve_probe b ok now ≡ some b') × (b'.probe_inflight ≡ false)
unfolding resolve_probe
resolve_probe-free b true now h = (
  record_success (record b { probe_inflight = false }),
  ground arith,
  record_success-probe (record b { probe_inflight = false }),
)
resolve_probe-free b false now h = (
  record b {
    probe_inflight = false;
    consecutive_failures = b.threshold;
    successes = 0;
    opened_at = some now;
    trips = b.trips + 1;
  },
  ground arith,
  refl,
)

by_name-same : (s : BreakerSet) (n : Name) (b : Breaker) → by_name (with_breaker s n b) n ≡ b
unfolding by_name with_breaker
by_name-same s data_stale b = refl
by_name-same s loss_velocity b = refl
by_name-same s exec_errors b = refl

pub owner_of-without : (o : Owners) (n : Name) → owner_of (without_owner o n) n ≡ none
unfolding owner_of without_owner
owner_of-without o data_stale = refl
owner_of-without o loss_velocity = refl
owner_of-without o exec_errors = refl

-- A write of one name's breaker or owner leaves another name's.
pub record IsOther (m n : Name) : Type 0 where
  pub breaker : (s : BreakerSet) (b : Breaker) → by_name (with_breaker s n b) m ≡ by_name s m
  pub owner : (o : Owners) → owner_of (without_owner o n) m ≡ owner_of o m

pub stale_velocity : IsOther data_stale loss_velocity
unfolding by_name with_breaker owner_of without_owner
stale_velocity = record { breaker = λ s b. refl; owner = λ o. refl }

pub stale_errors : IsOther data_stale exec_errors
unfolding by_name with_breaker owner_of without_owner
stale_errors = record { breaker = λ s b. refl; owner = λ o. refl }

pub velocity_stale : IsOther loss_velocity data_stale
unfolding by_name with_breaker owner_of without_owner
velocity_stale = record { breaker = λ s b. refl; owner = λ o. refl }

pub velocity_errors : IsOther loss_velocity exec_errors
unfolding by_name with_breaker owner_of without_owner
velocity_errors = record { breaker = λ s b. refl; owner = λ o. refl }

pub errors_stale : IsOther exec_errors data_stale
unfolding by_name with_breaker owner_of without_owner
errors_stale = record { breaker = λ s b. refl; owner = λ o. refl }

pub errors_velocity : IsOther exec_errors loss_velocity
unfolding by_name with_breaker owner_of without_owner
errors_velocity = record { breaker = λ s b. refl; owner = λ o. refl }

-- The outcome of settling a probe that is in flight.
pub record IsSettled (d d' : Desk) (n : Name) : Type 0 where
  pub released : IsReleased d' n
  pub others : (m : Name) → IsOther m n → IsUntouched d d' m

pub settle_probe-IsSettled :
    (d : Desk) (n : Name) (ok : Bool) (now : ℕ)
    → (by_name d.breakers n).probe_inflight ≡ true
    → (out : List Change × Desk) × (settle_probe d n ok now ≡ some out) × IsSettled d out.1 n
unfolding settle_probe resolve_in transition
settle_probe-IsSettled d n ok now h =
    let b = (phase (by_name d.breakers n) now).1 in
    let (resolved, done, free) =
      resolve_probe-free b ok now (phase-probe (by_name d.breakers n) now ∙ h) in
    let s = with_breaker d.breakers n resolved in
    let last = (phase (by_name s n) now).1 in
    (
      (
        (transition s n (phase (by_name d.breakers n) now).0 now ok).0,
        record { breakers = with_breaker s n last; owners = without_owner d.owners n },
      ),
      rw (settle_probe, resolve_in, done) refl,
      record {
        released = record {
          free =
              ap (λ x. x.probe_inflight) (by_name-same s n last)
              ∙ phase-probe (by_name s n) now
              ∙ ap (λ x. x.probe_inflight) (by_name-same d.breakers n resolved)
              ∙ free;
          unowned = owner_of-without d.owners n;
        };
        others = λ m other. record {
          breaker = other.breaker s last ∙ other.breaker d.breakers resolved;
          owner = other.owner d.owners;
        };
      },
    )
