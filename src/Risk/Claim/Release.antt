-- ===== src/Risk/Claim/Release.antt =====
-- The end of a probe: `resolve_probe` and `_transition` of src/pumpgrok/risk/breakers.py, and
-- `resolve_probe` and `release_order_probes` of src/pumpgrok/risk/engine/core.py.
use pump_grok.Prelude.{ℕ, Bool, not, String, Option, none, some, List, [], ◌∷◌, ◌++◌, if◌then◌else◌}
use pump_grok.Risk.Breaker.{Phase, opened, half_opened, closed, phase, resolve_probe}
use pump_grok.Risk.Claim.{
  Name, data_stale, loss_velocity, exec_errors, BreakerSet, by_name, with_breaker, breaker_names,
  Owners, owner_of, is_owner, Desk,
}

-- A `BreakerTripped` row, or a `BreakerReset` row with its `probe_ok`.
pub data Change : Type 0 where
  tripped : Name → Change
  reset : Name → Bool → Change

-- The row of a phase that was `before` and is `after`.
unfoldable pub change_of : Name → Phase → Phase → Bool → List Change
change_of n opened opened ok = []
change_of n half_opened half_opened ok = []
change_of n closed closed ok = []
change_of n before opened ok = tripped n ∷ []
change_of n before closed ok = reset n ok ∷ []
change_of n before half_opened ok = []

-- `_transition`, which reads the breaker's state.
unfoldable pub transition : BreakerSet → Name → Phase → ℕ → Bool → List Change × BreakerSet
unfolding phase change_of with_breaker by_name
transition s n before now probe_ok =
    let (after, b) = phase (by_name s n) now in
    (change_of n before after probe_ok, with_breaker s n b)

-- `BreakerSet.resolve_probe`; `none` is its `ValueError`.
unfoldable pub resolve_in : BreakerSet → Name → Bool → ℕ → Option (List Change × BreakerSet)
unfolding phase transition resolve_probe with_breaker by_name
resolve_in s n ok now =
    let (before, b) = phase (by_name s n) now in
    elim (resolve_probe b ok now) [
      | none ↦ none
      | some resolved ↦ some (transition (with_breaker s n resolved) n before now ok)
    ]

-- `_probe_owners.pop(name, None)`
unfoldable pub without_owner : Owners → Name → Owners
without_owner o data_stale = record o { stale = none }
without_owner o loss_velocity = record o { velocity = none }
without_owner o exec_errors = record o { errors = none }

-- `RiskEngine.resolve_probe`
unfoldable pub settle_probe : Desk → Name → Bool → ℕ → Option (List Change × Desk)
unfolding resolve_in without_owner
settle_probe d n ok now = elim (resolve_in d.breakers n ok now) [
  | none ↦ none
  | some out ↦ some (out.0, record { breakers = out.1; owners = without_owner d.owners n })
]

-- One owner entry. The probe is in flight where it is resolved, so that resolving does not raise.
unfoldable pub release_entry : Desk → String → Bool → ℕ → Name → List Change × Desk
unfolding settle_probe by_name owner_of without_owner
release_entry d hash ok now n =
    if not (is_owner hash (owner_of d.owners n))
    then ([], d)
    else if not (by_name d.breakers n).probe_inflight
    then ([], record d { owners = without_owner d.owners n })
    else elim (settle_probe d n ok now) [ none ↦ ([], d) | some out ↦ out ]

-- The loop of `release_order_probes`. The source takes the entries in the order of their claims,
-- which orders the rows of the breakers.
unfoldable pub release_entries : Desk → String → Bool → ℕ → List Name → List Change × Desk
unfolding release_entry
release_entries d hash ok now [] = ([], d)
release_entries d hash ok now (n ∷ ns) =
    let (rows, d') = release_entry d hash ok now n in
    let (more, last) = release_entries d' hash ok now ns in (rows ++ more, last)

unfoldable pub release_order_probes : Desk → String → Bool → ℕ → List Change × Desk
unfolding release_entries
release_order_probes d hash ok now = release_entries d hash ok now breaker_names
