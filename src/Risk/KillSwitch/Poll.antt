-- ===== src/Risk/KillSwitch/Poll.antt =====
-- The state of the kill switch: `poll`, `observe` and `live_sources` of
-- src/pumpgrok/risk/killswitch.py.
use pump_grok.Prelude.{
  Bool, true, false, not, ◌&&◌, ◌||◌, String, Option, none, some, List, [], ◌∷◌, ◌++◌,
  if◌then◌else◌, str_eq,
}
use pump_grok.Ledger.Events.{KillSwitchSet}
use pump_grok.Risk.KillSwitch.Model.{
  TextOps, Switch, KillState, inactive, file_state, kill_file_text, env_engaged, parse_kill_line,
  Logged, latest_set,
}
use pump_grok.Risk.KillSwitch.Alerts.{is_there, has_file}

module _ (o : TextOps) where
  -- `_file_requests_flatten`. An empty first line asks for none.
  unfoldable pub file_requests_flatten : Switch → Option String → Bool
  unfolding file_state
  file_requests_flatten k none = false
  file_requests_flatten k (some text) =
      k.is_configured && (file_state (o.first_line text)).flatten_requested

  -- The file source's state, by the text of the file and the latch of this process.
  unfoldable pub latched_state : String → Option (Bool × String) → KillState
  unfolding file_state kill_file_text
  latched_state line none = file_state line
  latched_state line (some (flatten, reason)) =
      if str_eq line (kill_file_text reason flatten)
      then record {
        active = true;
        source = "alert_command";
        reason = reason;
        flatten_requested = flatten;
      }
      else file_state line

  -- The ledger's source, if there is a ledger.
  unfoldable pub ledger_state : Option KillSwitchSet → KillState
  ledger_state none = inactive
  ledger_state (some row) = record {
    active = true;
    source = row.origin;
    reason = row.reason;
    flatten_requested = row.flatten_requested;
  }

  -- The tail of `_engaged_state`, by the parsed pending line: the state, and the switch.
  unfoldable pub unlatched_state :
      Switch → List Logged → Option (Bool × String) → KillState × Switch
  unfolding ledger_state latest_set
  unlatched_state k rows (some (flatten, reason)) = (
    record {
      active = true;
      source = "alert_command";
      reason = reason;
      flatten_requested = flatten;
    },
    k,
  )
  unlatched_state k rows none = (ledger_state (latest_set rows), record k { alert_latch = none })

  abbrev pub parsed_pending : Option String → Option (Bool × String)
  parsed_pending none = none
  parsed_pending (some raw) = parse_kill_line o raw

  -- `self._path.read_text()` of the latch file, if the switch has one.
  abbrev pub latch_text : Switch → Option String
  latch_text k = if k.is_configured then k.file else none

  unfoldable pub unset_state : Switch → List Logged → Option String → KillState × Switch
  unfolding latched_state unlatched_state
  unset_state k rows (some text) = (latched_state (o.first_line text) k.alert_latch, k)
  unset_state k rows none = unlatched_state k rows (parsed_pending k.pending_line)

  -- `_engaged_state`. A switch without a ledger has no rows.
  unfoldable pub engaged_state : Switch → List Logged → KillState × Switch
  unfolding env_engaged file_requests_flatten unset_state
  engaged_state k rows =
      if env_engaged o k.env_start
      then (
        record {
          active = true;
          source = "env";
          reason = o.strip k.env_start;
          flatten_requested = file_requests_flatten k k.file;
        },
        k,
      )
      else unset_state k rows (latch_text k)

  unfoldable pub poll : Switch → List Logged → KillState × Switch
  unfolding engaged_state
  poll k rows =
      let (state, k') = engaged_state k rows in
      if state.active
      then if k'.flatten_escalated && not state.flatten_requested
        then (record state { flatten_requested = true }, k')
        else (state, k')
      else (state, record k' { flatten_escalated = false })

  -- `live_sources`, given the variable's value now.
  unfoldable pub live_sources : Switch → String → List String
  unfolding env_engaged
  live_sources k env_now =
      (if env_engaged o env_now || env_engaged o k.env_start then "env" ∷ [] else [])
      ++ (if has_file k then "file" ∷ [] else [])
      ++ (if is_there k.pending_line then "alert_command" ∷ [] else [])
