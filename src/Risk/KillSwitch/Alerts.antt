-- ===== src/Risk/KillSwitch/Alerts.antt =====
-- The alert commands of src/pumpgrok/risk/killswitch.py: a KILL line that the channel delivers
-- engages the latch file, and while it cannot be written, the switch stays in force in memory.
use pump_grok.Prelude.{
  Bool, true, false, not, ◌&&◌, ◌||◌, String, Option, none, some, List, [], ◌∷◌, if◌then◌else◌,
}
use pump_grok.Risk.KillSwitch.Model.{TextOps, Switch, parse_kill_line, env_engaged, kill_file_text}

abbrev pub is_there {ℓ} : {A : Type ℓ} → Option A → Bool
is_there none = false
is_there (some a) = true

-- `self._path is not None and self._path.is_file()`
abbrev pub has_file : Switch → Bool
has_file k = k.is_configured && is_there k.file

-- `writable text` is whether writing `text` to the latch file succeeds; a failure is an `OSError`.
module _ (o : TextOps) (writable : String → Bool) where
  -- `latch_from_alert` on a parsed line, with the `OSError` of `_save_pending`: the switch, and
  -- whether the line was saved.
  unfoldable pub save_parsed : Switch → Option (Bool × String) → Switch × Bool
  save_parsed k none = (record k { alert_latch = none; pending_line = none }, true)
  save_parsed k (some (flatten, reason)) =
      if writable (kill_file_text reason flatten)
      then (
        record k {
          file = some (kill_file_text reason flatten);
          alert_latch = some (flatten, reason);
          pending_line = none;
        },
        true,
      )
      else (k, false)

  -- `_save_pending`, by the pending line.
  unfoldable pub save_pending : Switch → Option String → Switch × Bool
  unfolding save_parsed parse_kill_line
  save_pending k none = (k, false)
  save_pending k (some raw) =
      if k.is_configured then save_parsed k (parse_kill_line o raw) else (k, false)

  -- `_escalate`
  unfoldable pub escalate : Switch → String → Switch × Bool
  unfolding kill_file_text
  escalate k reason =
      if k.is_configured
      then if writable (kill_file_text reason true)
        then (
          record k {
            file = some (kill_file_text reason true);
            alert_latch = some (true, reason);
            flatten_escalated = true;
          },
          true,
        )
        else (k, false)
      else (record k { flatten_escalated = true }, true)

  -- The loop's body on a parsed line: the switch, and whether the loop goes on.
  unfoldable pub absorb_command : Switch → String → Bool → String → Switch × Bool
  unfolding escalate save_pending env_engaged
  absorb_command k raw flatten reason =
      if env_engaged o k.env_start || has_file k
      then if flatten && not k.flatten_escalated then escalate k reason else (k, true)
      else if k.is_configured
      then save_pending (record k { pending_line = some raw }) (some raw)
      else (k, true)

  unfoldable pub absorb_line : Switch → String → Option (Bool × String) → Switch × Bool
  unfolding absorb_command
  absorb_line k raw none = (k, true)
  absorb_line k raw (some (flatten, reason)) = absorb_command k raw flatten reason

  -- The loops over the texts and their lines, as one; `true` is that the offset is committed.
  unfoldable pub absorb_lines : Switch → List String → Switch × Bool
  unfolding absorb_line parse_kill_line
  absorb_lines k [] = (k, true)
  absorb_lines k (raw ∷ lines) =
      let (k', goes_on) = absorb_line k raw (parse_kill_line o raw) in
      let rest = absorb_lines k' lines in if goes_on then rest else (k', false)

  -- `absorb_alerts`, given the lines that a poll of the channel would deliver.
  unfoldable pub absorb_alerts : Switch → List String → Switch × Bool
  unfolding absorb_lines save_pending
  absorb_alerts k lines =
      let (saved, is_saved) = save_pending k k.pending_line in
      if is_there k.pending_line && not is_saved then (saved, false) else absorb_lines saved lines
