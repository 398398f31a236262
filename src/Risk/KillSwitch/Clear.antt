-- ===== src/Risk/KillSwitch/Clear.antt =====
-- The rows of the kill switch: `observe` and `request_clear` of src/pumpgrok/risk/killswitch.py.
use pump_grok.Prelude.{
  ℕ, Bool, true, false, not, ◌&&◌, ◌||◌, String, Option, none, some, List, [], ◌∷◌, ◌++◌,
  if◌then◌else◌, str_eq, ◌==◌,
}
use pump_grok.Prelude.Int.{pos}
use pump_grok.Ledger.Events.{
  EventSource, KillSwitchSet, KillSwitchCleared, ApprovalRecorded, kill_switch_set,
  kill_switch_cleared, approval_recorded,
}
use pump_grok.Ledger.Mark.{or_default}
use pump_grok.Core.Approval.{ApprovalRecord, Kind, killswitch_clear}
use pump_grok.Risk.KillSwitch.Model.{
  TextOps, Switch, KillState, Logged, latest_set, clear_epoch, drop_chars, starts_with, joined,
}
use pump_grok.Risk.KillSwitch.Poll.{poll, live_sources}

infixr 65 ◌⧺◌
abbrev pub ◌⧺◌ : String → String → String
a ⧺ b = joined a b

-- SHA-256's hexadecimal digest, and a number's decimal text.
pub record Hashing : Type 0 where
  pub sha256 : String → String
  pub decimal : ℕ → String

-- The text that `kill_switch_key` digests.
unfoldable pub kill_switch_text : Hashing → String → String → String → Bool → ℕ → String
kill_switch_text h origin reason day_utc flatten epoch =
    "KillSwitchSet|"
    ⧺ origin
    ⧺ "|"
    ⧺ reason
    ⧺ "|"
    ⧺ day_utc
    ⧺ (if flatten then "|flatten" else "")
    ⧺ (if epoch == 0 then "" else "|epoch=" ⧺ h.decimal epoch)

unfoldable pub kill_switch_key : Hashing → String → String → String → Bool → ℕ → String
unfolding kill_switch_text
kill_switch_key h origin reason day_utc flatten epoch =
    h.sha256 (kill_switch_text h origin reason day_utc flatten epoch)

-- `by_key`, as a test.
unfoldable pub key_taken : String → List Logged → Bool
key_taken k [] = false
key_taken k ((j, body) ∷ rows) = if str_eq j k then true else key_taken k rows

-- Whether the ledger's row already says what the state says.
abbrev pub covers : Option KillSwitchSet → Bool → Bool
covers none flatten = false
covers (some row) flatten = row.flatten_requested || not flatten

module _ (o : TextOps) (h : Hashing) where
  abbrev pub set_row : EventSource → KillState → KillSwitchSet
  set_row source state = record {
    source = source;
    origin = state.source;
    reason = state.reason;
    flatten_requested = state.flatten_requested;
    set_by = "risk_engine";
  }

  -- The ledger after `observe`. `rows` is what it reads first, and `later` what it holds when the
  -- row is written; a duplicate key is suppressed.
  unfoldable pub observe_state :
      KillState → String → EventSource → List Logged → List Logged → List Logged
  unfolding latest_set clear_epoch kill_switch_key key_taken
  observe_state state day_utc source rows later =
      let key =
        kill_switch_key h state.source state.reason day_utc state.flatten_requested
          (clear_epoch rows) in
      if not state.active
        || covers (latest_set later) state.flatten_requested
        || not (clear_epoch later == clear_epoch rows)
        || key_taken key later
      then later
      else later ++ (key, kill_switch_set (set_row source state)) ∷ []

  unfoldable pub observe : Switch → String → EventSource → List Logged → List Logged → List Logged
  unfolding poll observe_state
  observe k day_utc source rows later = observe_state (poll o k rows).0 day_utc source rows later

-- Why `request_clear` raises `ClearRefused`.
pub data ClearRefused : Type 0 where
  not_human wrong_kind live_sources_set no_ledger already_cleared approval_consumed : ClearRefused

pub data Cleared : Type 0 where
  cleared : List Logged → Cleared
  clear_refused : ClearRefused → Cleared

abbrev pub is_clear_kind : Kind → Bool
is_clear_kind killswitch_clear = true
is_clear_kind _ = false

abbrev pub is_empty : List String → Bool
is_empty [] = true
is_empty (x ∷ xs) = false

abbrev pub text_or_empty : Option String → String
text_or_empty none = ""
text_or_empty (some s) = s

-- `is_seat` is SEAT_RE's match.
module _ (o : TextOps) (h : Hashing) (is_seat : String → Bool) where
  unfoldable pub by_human : String → Bool
  unfolding drop_chars starts_with
  by_human by = starts_with by "human:" && not (is_seat (drop_chars 6 by))

  abbrev pub clear_row : EventSource → ApprovalRecord → KillSwitchCleared
  clear_row source a = record {
    source = source;
    cleared_by = a.approved_by;
    approval_id = a.id;
    sources_now_clear = [];
  }

  abbrev pub consumed_row : EventSource → ApprovalRecord → String → ApprovalRecorded
  consumed_row source a reason = record {
    source = source;
    id = a.id;
    kind = "killswitch_clear";
    approved_by = a.approved_by;
    at = a.at;
    ticket_id = text_or_empty a.ticket_id;
    mint = text_or_empty a.mint;
    size_lamports = or_default a.size_lamports (pos 0);
    token_units = or_default a.token_units (pos 0);
    max_slippage_bps = or_default a.max_slippage_bps (pos 0);
    exit_rule_id = text_or_empty a.exit_rule_id;
    raw_message = reason;
    consumed = true;
  }

  -- The part of `request_clear` that reads the ledger: the rows that it leaves.
  unfoldable pub clear_in :
      String → EventSource → ApprovalRecord → String → Option (List Logged) → Cleared
  unfolding key_taken
  clear_in key source a reason none = clear_refused no_ledger
  clear_in key source a reason (some rows) =
      if key_taken key rows
      then clear_refused already_cleared
      else if key_taken (joined "consumed|" a.id) rows
      then clear_refused approval_consumed
      else cleared (
          rows
          ++ (key, kill_switch_cleared (clear_row source a))
            ∷ (joined "consumed|" a.id, approval_recorded (consumed_row source a reason))
            ∷ [])

  -- `request_clear`: the ledger that it leaves, or why it refuses. `none` for the rows is a switch
  -- without a ledger.
  unfoldable pub request_clear :
      Switch
      → String
      → ApprovalRecord
      → String
      → String
      → EventSource
      → Option (List Logged)
      → Cleared
  unfolding by_human live_sources kill_switch_key clear_in
  request_clear k env_now a reason day_utc source ledger =
      if not (by_human a.approved_by)
      then clear_refused not_human
      else if not (is_clear_kind a.kind)
      then clear_refused wrong_kind
      else if not (is_empty (live_sources o k env_now))
      then clear_refused live_sources_set
      else clear_in (kill_switch_key h "clear" reason day_utc false 0) source a reason ledger
