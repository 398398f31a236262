-- ===== src/Risk/KillSwitch/Tests.antt =====
-- The kill switch on commands with plain words and on a short ledger.
use pump_grok.Prelude.{
  ℕ, zero, suc, Bool, true, false, String, none, some, List, [], ◌∷◌, ◌++◌, if◌then◌else◌, ◌≡◌,
  refl, ap, inl, inr, str_eq, eq_iff, arith,
}
use pump_grok.Ledger.Events.{Body, kill_switch_cleared, paper}
use pump_grok.Core.Approval.{ApprovalRecord, killswitch_clear}
use pump_grok.Risk.KillSwitch.Model.{
  TextOps, Switch, KillState, Logged, joined, starts_with, drop_chars, file_state, kill_file_text,
  parse_kill_line, env_engaged, latest_from, latest_set, clear_epoch, lstrip_marks,
}
use pump_grok.Risk.KillSwitch.Alerts.{absorb_alerts}
use pump_grok.Risk.KillSwitch.Poll.{poll, engaged_state, unset_state, live_sources, latched_state}
use pump_grok.Risk.KillSwitch.Clear.{
  Hashing, Cleared, cleared, request_clear, clear_in, by_human, is_empty, observe, observe_state,
  key_taken, kill_switch_key, kill_switch_text,
}
use pump_grok.Risk.KillSwitch.Absorb.{absorb_alerts-active}
use pump_grok.Risk.KillSwitch.Cleared.{request_clear-inactive}
use pump_grok.Risk.KillSwitch.Epochs.{key_at, Reach, start, observes, appends}
use pump_grok.Risk.KillSwitch.Restart.{observe-restart}
use pump_grok.Risk.KillSwitch.Latch.{poll-latched_flatten}

abbrev ops : TextOps
ops = record {
  strip = λ s. s;
  head_words = λ s. if starts_with s "KILL FLATTEN" then "KILL" ∷ "FLATTEN" ∷ [] else "KILL" ∷ [];
  match_kill = λ s. if starts_with s "KILL " then some (drop_chars 5 s) else none;
  first_line = λ s. s;
}

abbrev hashing : Hashing
hashing = record { sha256 = λ s. s; decimal = λ n. "1" }

abbrev fresh : Switch
fresh = record {
  env_start = "";
  is_configured = true;
  file = none;
  alert_latch = none;
  pending_line = none;
  flatten_escalated = false;
}

abbrev latched : Switch
latched = record fresh { file = some "FLATTEN losses" }

abbrev never : String → Bool
never text = false

abbrev chatter : List String
chatter = "hello" ∷ "KILL losses" ∷ []

abbrev human_clear : ApprovalRecord
human_clear = record {
  id = "A1";
  kind = killswitch_clear;
  ticket_id = none;
  mint = none;
  size_lamports = none;
  token_units = none;
  max_slippage_bps = none;
  exit_rule_id = none;
  approved_by = "human:ann";
  raw_message = "";
  at = "2026-01-01T00:00:00Z";
  consumed = false;
}

abbrev set_rows : List Logged
set_rows = observe ops hashing latched "2026-01-01" paper [] []

absorb_alerts-active_example :
    (poll ops (absorb_alerts ops never fresh chatter).0 []).0.active ≡ true
unfolding parse_kill_line starts_with drop_chars
absorb_alerts-active_example = absorb_alerts-active ops never fresh chatter [] refl (inl refl) refl

abbrev rows_left : Cleared → List Logged
rows_left (cleared rows) = rows
rows_left _ = []

abbrev cleared_rows : List Logged
cleared_rows =
    rows_left (
      request_clear ops hashing never fresh "" human_clear "over" "2026-01-01" paper
        (some set_rows))

request_clear-inactive_example :
    (by_human ops hashing never "human:ann" ≡ true)
    × (human_clear.kind ≡ killswitch_clear)
    × (is_empty (live_sources ops fresh "") ≡ true)
    × ((poll ops fresh cleared_rows).0.active ≡ false)
request_clear-inactive_example =
    request_clear-inactive ops hashing never fresh "" human_clear "over" "2026-01-01" paper set_rows
      cleared_rows done
  where
    done :
        request_clear ops hashing never fresh "" human_clear "over" "2026-01-01" paper
          (some set_rows)
        ≡ cleared cleared_rows
    done =
        unfold request_clear by_human starts_with drop_chars live_sources env_engaged clear_in
          key_taken observe poll engaged_state unset_state latched_state file_state kill_switch_key
          joined observe_state latest_set latest_from clear_epoch lstrip_marks in
        refl

-- Numbers in tally marks, and texts for their own digests.
unfoldable marks : ℕ → String
marks zero = String.[]
marks (suc n) = String.◌∷◌ "|" (marks n)

marks-injective : (m n : ℕ) → marks m ≡ marks n → m ≡ n
unfolding marks starts_with drop_chars
marks-injective zero zero e = refl
marks-injective zero (suc n) e = let stuck : false ≡ true = ap (λ s. starts_with s "|") e in cc
marks-injective (suc m) zero e = let stuck : true ≡ false = ap (λ s. starts_with s "|") e in cc
marks-injective (suc m) (suc n) e = ap suc (marks-injective m n (ap (drop_chars 1) e))

abbrev plain : Hashing
plain = record { sha256 = λ s. s; decimal = marks }

-- What the latch file sets.
abbrev engagement : KillState
engagement = record { active = true; source = "file"; reason = "losses"; flatten_requested = true }

-- Engaged, cleared, and engaged again on the same day for the same reason.
abbrev engaged_once : List Logged
engaged_once = observe_state ops plain engagement "2026-01-01" paper [] []

abbrev clearing : Body
clearing =
    kill_switch_cleared (record {
      source = paper;
      cleared_by = "human:a";
      approval_id = "A1";
      sources_now_clear = [];
    })

abbrev cleared_since : List Logged
cleared_since = engaged_once ++ ("clear", clearing) ∷ []

other_key : (n : ℕ) → str_eq "clear" (key_at plain engagement "2026-01-01" n) ≡ false
unfolding kill_switch_key kill_switch_text joined starts_with
other_key n =
    apart_from "clear" (key_at plain engagement "2026-01-01" n)
      (λ e. let stuck : false ≡ true = ap (λ s. starts_with s "K") e in cc)
  where
    apart_from : (s t : String) → (s ≡ t → ⊥) → str_eq s t ≡ false
    apart_from s t h = ground (arith, eq_iff s t)

led : Reach plain engagement "2026-01-01" cleared_since
led = appends "clear" clearing other_key (observes ops paper [] start)

observe-restart_example :
    (poll ops fresh
      (observe ops plain latched "2026-01-01" paper cleared_since cleared_since)).0.active
    ≡ true
unfolding kill_switch_key poll engaged_state unset_state latched_state file_state env_engaged
    starts_with
observe-restart_example =
    observe-restart ops plain latched fresh "2026-01-01" paper cleared_since marks-injective
      (λ i j e. e) led refl

poll-latched_flatten_example :
    ((poll ops latched []).0.active ≡ true) × ((poll ops latched []).0.flatten_requested ≡ true)
unfolding kill_file_text joined
poll-latched_flatten_example =
    poll-latched_flatten ops (λ s. inr (s, refl)) latched [] "losses" refl refl refl
