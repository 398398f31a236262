-- ===== src/Risk/KillSwitch/Model.antt =====
-- src/pumpgrok/risk/killswitch.py: the switch's state, the text of its latch file, and the ledger
-- rows that it reads.
use Prim.Native.Char.{code}
use pump_grok.Prelude.{
  ℕ, zero, suc, Bool, true, false, not, ◌&&◌, ◌||◌, String, Option, none, some, List, [], ◌∷◌,
  if◌then◌else◌, str_eq, ◌==◌,
}
use pump_grok.Prelude.Lists.{contains}
use pump_grok.Ledger.Events.{Body, KillSwitchSet, kill_switch_set, kill_switch_cleared}

-- What the switch asks of Python's texts and of its regular expressions: `strip`, the first two of
-- `split(None, 2)`, the group `reason` of KILL_LINE_RE's match, and the stripped first line of a
-- file's text ("" if it has none).
pub record TextOps : Type 0 where
  pub strip : String → String
  pub head_words : String → List String
  pub match_kill : String → Option String
  pub first_line : String → String

-- `KillSwitch`, with what its latch file holds (`none`: no file). `is_configured` is whether it has
-- a path.
pub record Switch : Type 0 where
  pub env_start : String
  pub is_configured : Bool
  pub file : Option String
  pub alert_latch : Option (Bool × String)
  pub pending_line : Option String
  pub flatten_escalated : Bool

pub record KillState : Type 0 where
  pub active : Bool
  pub source : String
  pub reason : String
  pub flatten_requested : Bool

abbrev pub inactive : KillState
inactive = record { active = false; source = ""; reason = ""; flatten_requested = false }

-- `s + t`
unfoldable pub joined : String → String → String
joined String.[] t = t
joined (String.◌∷◌ c s) t = String.◌∷◌ c (joined s t)

-- `s.startswith(t)`
unfoldable pub starts_with : String → String → Bool
starts_with s String.[] = true
starts_with String.[] (String.◌∷◌ d t) = false
starts_with (String.◌∷◌ c s) (String.◌∷◌ d t) = code c == code d && starts_with s t

-- `s[n:]`
unfoldable pub drop_chars : ℕ → String → String
drop_chars zero s = s
drop_chars (suc n) String.[] = String.[]
drop_chars (suc n) (String.◌∷◌ c s) = drop_chars n s

-- `s.lstrip(" :")`
unfoldable pub lstrip_marks : String → String
lstrip_marks String.[] = String.[]
lstrip_marks (String.◌∷◌ c s) =
    if code c == 32 || code c == 58 then lstrip_marks s else String.◌∷◌ c s

-- `_file_state`, on a stripped first line.
unfoldable pub file_state : String → KillState
unfolding lstrip_marks drop_chars starts_with
file_state line =
    if str_eq line "FLATTEN" || str_eq line "FLATTEN:"
    then record {
      active = true;
      source = "file";
      reason = "flatten requested";
      flatten_requested = true;
    }
    else if starts_with line "FLATTEN " || starts_with line "FLATTEN:"
    then record {
      active = true;
      source = "file";
      reason = lstrip_marks (drop_chars 7 line);
      flatten_requested = true;
    }
    else record { active = true; source = "file"; reason = line; flatten_requested = false }

unfoldable pub kill_file_text : String → Bool → String
unfolding joined
kill_file_text reason flatten = if flatten then joined "FLATTEN " reason else reason

module _ (o : TextOps) where
  -- `env_engaged`, on a variable that is there.
  unfoldable pub env_engaged : String → Bool
  unfolding contains
  env_engaged raw = not (contains (o.strip raw) ("" ∷ "0" ∷ "false" ∷ []))

  -- `parse_kill_line`: whether a flatten is asked for, and the reason.
  unfoldable pub parse_kill_line : String → Option (Bool × String)
  unfolding contains
  parse_kill_line line = elim (o.match_kill (o.strip line)) [
    | none ↦ none
    | some reason ↦ some (contains "FLATTEN" (o.head_words (o.strip line)), o.strip reason)
  ]

-- A ledger row: its idempotency key and its body.
abbrev pub Logged : Type 0
Logged = String × Body

-- The loop of `_latest_set`.
unfoldable pub latest_from : Option KillSwitchSet → List Logged → Option KillSwitchSet
latest_from latest [] = latest
latest_from latest ((k, kill_switch_set row) ∷ rows) = latest_from (some row) rows
latest_from latest ((k, kill_switch_cleared row) ∷ rows) = latest_from none rows
latest_from latest (r ∷ rows) = latest_from latest rows

unfoldable pub latest_set : List Logged → Option KillSwitchSet
unfolding latest_from
latest_set rows = latest_from none rows

-- `_clear_epoch`
unfoldable pub clear_epoch : List Logged → ℕ
clear_epoch [] = 0
clear_epoch ((k, kill_switch_cleared row) ∷ rows) = suc (clear_epoch rows)
clear_epoch (r ∷ rows) = clear_epoch rows
