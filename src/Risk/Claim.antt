-- ===== src/Risk/Claim.antt =====
-- The half-open probes of the desk: `ProbeView`, `snapshot_probes` and `claim_probe` of
-- src/pumpgrok/risk/engine/rules.py over the `BreakerSet` of src/pumpgrok/risk/breakers.py.
pub mod Exclusive
pub mod Release
pub mod Settling
pub mod Released
use pump_grok.Prelude.{
  ℕ, Bool, true, false, not, ◌&&◌, String, Option, none, some, List, [], ◌∷◌, str_eq, if◌then◌else◌,
}
use pump_grok.Risk.Breaker.{Breaker, is_open, admit_probe}

-- `BREAKER_NAMES`
pub data Name : Type 0 where
  data_stale loss_velocity exec_errors : Name

abbrev pub breaker_names : List Name
breaker_names = data_stale ∷ loss_velocity ∷ exec_errors ∷ []

-- `BreakerSet`, by the part of each breaker that the base class has.
pub record BreakerSet : Type 0 where
  pub stale : Breaker
  pub velocity : Breaker
  pub errors : Breaker

unfoldable pub by_name : BreakerSet → Name → Breaker
by_name s data_stale = s.stale
by_name s loss_velocity = s.velocity
by_name s exec_errors = s.errors

unfoldable pub with_breaker : BreakerSet → Name → Breaker → BreakerSet
with_breaker s data_stale b = record s { stale = b }
with_breaker s loss_velocity b = record s { velocity = b }
with_breaker s exec_errors b = record s { errors = b }

-- The effect of `open_breakers`: every breaker is read.
unfoldable pub read_all : BreakerSet → ℕ → BreakerSet
unfolding is_open
read_all s now = record {
  stale = (is_open s.stale now).1;
  velocity = (is_open s.velocity now).1;
  errors = (is_open s.errors now).1;
}

unfoldable pub filter_names : (Name → Bool) → List Name → List Name
filter_names f [] = []
filter_names f (n ∷ ns) = if f n then n ∷ filter_names f ns else filter_names f ns

-- The names that `half_open_breakers` lists, once every breaker is read.
unfoldable pub half_open_names : BreakerSet → List Name
unfolding filter_names by_name
half_open_names s =
    filter_names (λ n. (by_name s n).half_open && not (by_name s n).probe_inflight) breaker_names

-- `_probe_owners`: the order hash that holds each breaker's probe.
pub record Owners : Type 0 where
  pub stale : Option String
  pub velocity : Option String
  pub errors : Option String

unfoldable pub owner_of : Owners → Name → Option String
owner_of o data_stale = o.stale
owner_of o loss_velocity = o.velocity
owner_of o exec_errors = o.errors

unfoldable pub with_owner : Owners → Name → String → Owners
with_owner o data_stale hash = record o { stale = some hash }
with_owner o loss_velocity hash = record o { velocity = some hash }
with_owner o exec_errors hash = record o { errors = some hash }

abbrev pub kept_if : Bool → Option String → Option String
kept_if true o = o
kept_if false o = none

-- The owners whose probe is in flight.
unfoldable pub drop_settled : BreakerSet → Owners → Owners
drop_settled s o = record {
  stale = kept_if s.stale.probe_inflight o.stale;
  velocity = kept_if s.velocity.probe_inflight o.velocity;
  errors = kept_if s.errors.probe_inflight o.errors;
}

abbrev pub is_owner : String → Option String → Bool
is_owner hash none = false
is_owner hash (some h) = str_eq h hash

pub record ProbeView : Type 0 where
  pub half_all : List Name
  pub owned : List Name
  pub half_avail : List Name

pub record Desk : Type 0 where
  pub breakers : BreakerSet
  pub owners : Owners

unfoldable pub snapshot_probes : Desk → String → ℕ → ProbeView × Desk
unfolding drop_settled read_all half_open_names filter_names by_name owner_of
snapshot_probes d hash now =
    let owners = drop_settled d.breakers d.owners in
    let half_all = filter_names (λ n. (by_name d.breakers n).half_open) breaker_names in
    let breakers = read_all d.breakers now in
    (
      record {
        half_all = half_all;
        owned = filter_names (λ n. is_owner hash (owner_of owners n)) half_all;
        half_avail = half_open_names breakers;
      },
      record { breakers = breakers; owners = owners },
    )

-- `admit_probe` on the first of the free breakers, and its owner.
unfoldable pub claim_free : Desk → String → ℕ → List Name → Option (Bool × Desk)
unfolding by_name with_breaker with_owner admit_probe
claim_free d hash now [] = none
claim_free d hash now (n ∷ ns) =
    let (admitted, b) = admit_probe (by_name d.breakers n) now in
    if admitted
    then some (
      true,
      record { breakers = with_breaker d.breakers n b; owners = with_owner d.owners n hash },
    )
    else none

abbrev pub no_names : List Name → Bool
no_names [] = true
no_names (n ∷ ns) = false

-- `claim_probe`: the order's `probe` flag and the desk; `none` is its `_Fail`. `probing` is
-- `ctx.is_buy and not ctx.is_exit_sell`.
unfoldable pub claim_probe : Bool → Desk → String → ℕ → ProbeView → Option (Bool × Desk)
unfolding claim_free
claim_probe probing d hash now view =
    if not (probing && not (no_names view.half_all))
    then some (false, d)
    else if not (no_names view.owned)
    then some (true, d)
    else claim_free d hash now view.half_avail

-- One check's part on the probes: the view read at `now`, and the claim at `later`.
unfoldable pub take_probe : Bool → Desk → String → ℕ → ℕ → Option (Bool × Desk)
unfolding snapshot_probes claim_probe
take_probe probing d hash now later =
    let (view, d') = snapshot_probes d hash now in claim_probe probing d' hash later view
