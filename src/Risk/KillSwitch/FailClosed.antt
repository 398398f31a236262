-- ===== src/Risk/KillSwitch/FailClosed.antt =====
-- A KILL line that reaches the kill switch is in force from then on: src/pumpgrok/risk/killswitch.py.
use pump_grok.Prelude.{
  Bool, true, false, not, ◌&&◌, ◌||◌, String, Option, none, some, List, ◌≡◌, refl, ◌∙◌, inl, inr,
  Bool-cases, sym, arith,
}
use pump_grok.Ledger.Events.{KillSwitchSet}
use pump_grok.Risk.KillSwitch.Model.{TextOps, Switch, file_state, env_engaged, Logged, latest_set}
use pump_grok.Risk.KillSwitch.Alerts.{is_there, has_file}
use pump_grok.Risk.KillSwitch.Poll.{
  latched_state, ledger_state, unlatched_state, parsed_pending, latch_text, unset_state,
  engaged_state, poll,
}

file_state-active : (line : String) → (file_state line).active ≡ true
unfolding file_state
file_state-active line = ground arith

or_assoc : (a b c : Bool) → a || (b || c) ≡ (a || b) || c
or_assoc true b c = refl
or_assoc false b c = refl

module _ (o : TextOps) where
  -- A source other than the ledger is set.
  abbrev pub is_forced : Switch → Bool
  is_forced k =
      env_engaged o k.env_start || (has_file k || is_there (parsed_pending o k.pending_line))

  latched_state-active :
      (line : String) (latch : Option (Bool × String)) → (latched_state o line latch).active ≡ true
  unfolding latched_state
  latched_state-active line none = file_state-active line
  latched_state-active line (some (flatten, reason)) = ground (arith, file_state-active line)

  unlatched_state-active :
      (k : Switch) (rows : List Logged) (p : Option (Bool × String))
      → (unlatched_state o k rows p).0.active ≡ is_there p || is_there (latest_set rows)
  unfolding unlatched_state
  unlatched_state-active k rows (some p) = refl
  unlatched_state-active k rows none = by_row (latest_set rows)
    where
      by_row : (row : Option KillSwitchSet) → (ledger_state o row).active ≡ is_there row
      by_row none = unfold ledger_state in refl
      by_row (some row) = unfold ledger_state in refl

  unset_state-active :
      (k : Switch) (rows : List Logged) (text : Option String)
      → (unset_state o k rows text).0.active
        ≡ is_there text
          || (is_there (parsed_pending o k.pending_line) || is_there (latest_set rows))
  unfolding unset_state
  unset_state-active k rows none = unlatched_state-active k rows (parsed_pending o k.pending_line)
  unset_state-active k rows (some text) = latched_state-active (o.first_line text) k.alert_latch

  latch_text-there : (k : Switch) → is_there (latch_text o k) ≡ has_file k
  latch_text-there k = ground arith

  engaged_state-active :
      (k : Switch) (rows : List Logged)
      → (engaged_state o k rows).0.active ≡ is_forced k || is_there (latest_set rows)
  unfolding engaged_state
  engaged_state-active k rows = elim (Bool-cases (env_engaged o k.env_start)) [
    | inl e ↦ rw e refl
    | inr e ↦
        rw (e, unset_state-active k rows (latch_text o k), latch_text-there k)
          (or_assoc (has_file k) (is_there (parsed_pending o k.pending_line)) _)
  ]

  -- The switch is active exactly if the environment engaged it at the start, its latch file is
  -- there, a KILL line waits to be saved, or the ledger has a set row that no later row clears;
  -- no source can hide another.
  pub poll-active :
      (k : Switch) (rows : List Logged)
      → (poll o k rows).0.active ≡ is_forced k || is_there (latest_set rows)
  unfolding poll
  poll-active k rows = elim (Bool-cases (engaged_state o k rows).0.active) [
    | inl e ↦
        let state = (engaged_state o k rows).0 in
        let k' = (engaged_state o k rows).1 in
        let same = sym e ∙ engaged_state-active k rows in
        elim (Bool-cases (k'.flatten_escalated && not state.flatten_requested)) [
          | inl f ↦ rw (e, f) same
          | inr f ↦ rw (e, f) (engaged_state-active k rows)
        ]
    | inr e ↦ rw e (engaged_state-active k rows)
  ]
