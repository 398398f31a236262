-- ===== src/Risk/KillSwitch/Cleared.antt =====
-- A clear of the kill switch: src/pumpgrok/risk/killswitch.py.
use pump_grok.Prelude.{
  Bool, true, false, ◌||◌, String, Option, none, some, List, [], ◌∷◌, ◌++◌, if◌then◌else◌, ◌≡◌,
  refl, inl, inr, Bool-cases, subst,
}
use pump_grok.Ledger.Events.{EventSource, KillSwitchSet, kill_switch_set, kill_switch_cleared}
use pump_grok.Core.Approval.{ApprovalRecord, Kind, killswitch_clear}
use pump_grok.Risk.KillSwitch.Model.{
  TextOps, Switch, Logged, latest_from, latest_set, env_engaged, joined,
}
use pump_grok.Risk.KillSwitch.Alerts.{is_there, has_file}
use pump_grok.Risk.KillSwitch.Poll.{poll, live_sources, parsed_pending}
use pump_grok.Risk.KillSwitch.Clear.{
  Hashing, kill_switch_key, key_taken, cleared, is_clear_kind, is_empty, by_human, request_clear,
  clear_in,
}
use pump_grok.Risk.KillSwitch.FailClosed.{is_forced, poll-active}

pub latest_from-append :
    (latest : Option KillSwitchSet) (rows more : List Logged)
    → latest_from latest (rows ++ more) ≡ latest_from (latest_from latest rows) more
unfolding latest_from
latest_from-append latest [] more = refl
latest_from-append latest ((k, kill_switch_set row) ∷ rows) more =
    latest_from-append (some row) rows more
latest_from-append latest ((k, kill_switch_cleared row) ∷ rows) more =
    latest_from-append none rows more
latest_from-append latest ((k, body) ∷ rows) more = latest_from-append latest rows more

pub or-true : (a : Bool) → a || true ≡ true
or-true true = refl
or-true false = refl

is_clear_kind-eq : (kind : Kind) → is_clear_kind kind ≡ true → kind ≡ killswitch_clear
is_clear_kind-eq killswitch_clear e = refl
is_clear_kind-eq kind e = cc

cleared-injective : (a b : List Logged) → cleared a ≡ cleared b → a ≡ b
cleared-injective a b e = cc

module _ (o : TextOps) where
  -- No live source, no force.
  unforced :
      (k : Switch) (env_now : String)
      → is_empty (live_sources o k env_now) ≡ true
      → is_forced o k ≡ false
  unfolding live_sources
  unforced k env_now e = elim (Bool-cases (env_engaged o env_now || env_engaged o k.env_start)) [
    | inl on ↦ let stuck = rw on at e in cc
    | inr off ↦ elim (Bool-cases (has_file k)) [
      | inl f ↦ let stuck = rw (off, f) at e in cc
      | inr f ↦ by_pending k.pending_line (rw (off, f) at e) (or-false _ _ off) f
    ]
  ]
    where
      or-false : (a b : Bool) → a || b ≡ false → b ≡ false
      or-false true b e = cc
      or-false false b e = e

      by_pending :
          (p : Option String)
          → is_empty (if is_there p then "alert_command" ∷ [] else []) ≡ true
          → env_engaged o k.env_start ≡ false
          → has_file k ≡ false
          → env_engaged o k.env_start || (has_file k || is_there (parsed_pending o p)) ≡ false
      by_pending none e off f = rw (off, f) refl
      by_pending (some raw) e off f = cc

  clear_in-latest :
      (h : Hashing) (is_seat : String → Bool) (key : String) (source : EventSource)
      (a : ApprovalRecord) (reason : String) (rows left : List Logged)
      → clear_in o h is_seat key source a reason (some rows) ≡ cleared left
      → latest_set left ≡ none
  unfolding clear_in latest_set latest_from
  clear_in-latest h is_seat key source a reason rows left r =
      elim (Bool-cases (key_taken key rows)) [
        | inl e ↦ let stuck = rw e at r in cc
        | inr e ↦ elim (Bool-cases (key_taken (joined "consumed|" a.id) rows)) [
          | inl f ↦ let stuck = rw (e, f) at r in cc
          | inr f ↦
              subst (λ x. latest_set x ≡ none) (cleared-injective _ left (rw (e, f) at r))
                (latest_from-append none rows _)
        ]
      ]

  module _ (h : Hashing) (is_seat : String → Bool) where
    -- A clear that is not refused comes from a human with a clear approval while no live source is
    -- set, and then the switch is inactive: nothing of the ledger it leaves engages it again.
    pub request_clear-inactive :
        (k : Switch) (env_now : String) (a : ApprovalRecord) (reason day_utc : String)
        (source : EventSource) (rows left : List Logged)
        → request_clear o h is_seat k env_now a reason day_utc source (some rows) ≡ cleared left
        → (by_human o h is_seat a.approved_by ≡ true)
          × (a.kind ≡ killswitch_clear)
          × (is_empty (live_sources o k env_now) ≡ true)
          × ((poll o k left).0.active ≡ false)
    unfolding request_clear
    request_clear-inactive k env_now a reason day_utc source rows left r =
        elim (Bool-cases (by_human o h is_seat a.approved_by)) [
          | inr e1 ↦ let stuck = rw e1 at r in cc
          | inl e1 ↦ elim (Bool-cases (is_clear_kind a.kind)) [
            | inr e2 ↦ let stuck = rw (e1, e2) at r in cc
            | inl e2 ↦ elim (Bool-cases (is_empty (live_sources o k env_now))) [
              | inr e3 ↦ let stuck = rw (e1, e2, e3) at r in cc
              | inl e3 ↦ (
                e1,
                is_clear_kind-eq a.kind e2,
                e3,
                rw
                    (
                      poll-active o k left,
                      unforced k env_now e3,
                      clear_in-latest h is_seat (kill_switch_key h "clear" reason day_utc false 0)
                          source a reason rows left (rw (e1, e2, e3) at r),
                    )
                    refl,
              )
            ]
          ]
        ]
