-- ===== src/Risk/KillSwitch/Absorb.antt =====
-- The alert lines that the kill switch takes in stay in force: src/pumpgrok/risk/killswitch.py.
use pump_grok.Prelude.{
  Bool, true, false, not, ◌&&◌, ◌||◌, String, Option, none, some, List, [], ◌∷◌, if◌then◌else◌, ◌≡◌,
  refl, ◌∙◌, ◌⊎◌, inl, inr, Bool-cases, Option-cases, some-injective, subst, sym, arith,
}
use pump_grok.Risk.KillSwitch.Model.{
  TextOps, Switch, kill_file_text, env_engaged, parse_kill_line, Logged,
}
use pump_grok.Risk.KillSwitch.Alerts.{
  is_there, has_file, save_parsed, save_pending, escalate, absorb_command, absorb_line,
  absorb_lines, absorb_alerts,
}
use pump_grok.Risk.KillSwitch.Poll.{parsed_pending, poll}
use pump_grok.Risk.KillSwitch.FailClosed.{is_forced, poll-active}

module _ (o : TextOps) (writable : String → Bool) where
  -- A switch that is set, with its path as it was.
  abbrev IsKept : Switch → Switch → Type 0
  IsKept k k' = (is_forced o k' ≡ true) × (k'.is_configured ≡ k.is_configured)

  or-true : (a : Bool) → a || true ≡ true
  or-true true = refl
  or-true false = refl

  there-true : (b : Bool) → b ≡ true → b && true ≡ true
  there-true true e = refl
  there-true false e = e

  file-forced : (k : Switch) → has_file k ≡ true → is_forced o k ≡ true
  file-forced k e = rw e (or-true (env_engaged o k.env_start))

  pending-forced :
      (k : Switch) → is_there (parsed_pending o k.pending_line) ≡ true → is_forced o k ≡ true
  pending-forced k e = rw e (ground arith)

  -- A property of a conditional's switch, by its condition.
  by_condition :
      (P : Switch → Type 0) (b : Bool) (x y : Switch × Bool)
      → (b ≡ true → P x.0)
      → (b ≡ false → P y.0)
      → P (if b then x else y).0
  by_condition P true x y h h' = h refl
  by_condition P false x y h h' = h' refl

  -- Saving a line that is a command sets the switch, written or not.
  save_parsed-IsKept :
      (k : Switch) (c : Bool × String)
      → k.is_configured ≡ true
      → is_there (parsed_pending o k.pending_line) ≡ true
      → IsKept k (save_parsed o writable k (some c)).0
  unfolding save_parsed
  save_parsed-IsKept k (flatten, reason) path pending =
      by_condition (IsKept k) (writable (kill_file_text reason flatten)) _ _
        (λ e. (
          file-forced
              (record k {
                file = some (kill_file_text reason flatten);
                alert_latch = some (flatten, reason);
                pending_line = none;
              })
              (there-true k.is_configured path),
          refl,
        ))
        (λ e. (pending-forced k pending, refl))

  save_pending-IsKept :
      (k : Switch) (raw : String)
      → k.is_configured ≡ true
      → k.pending_line ≡ some raw
      → is_there (parse_kill_line o raw) ≡ true
      → IsKept k (save_pending o writable k (some raw)).0
  unfolding save_pending
  save_pending-IsKept k raw path pending parses =
      by_condition (IsKept k) k.is_configured _ _
        (λ e. by_command (parse_kill_line o raw) refl parses) (λ e. cc)
    where
      by_command :
          (p : Option (Bool × String))
          → parse_kill_line o raw ≡ p
          → is_there p ≡ true
          → IsKept k (save_parsed o writable k p).0
      by_command none e there = cc
      by_command (some c) e there = save_parsed-IsKept k c path (rw (pending, e) refl)

  escalate-IsKept :
      (k : Switch) (reason : String)
      → is_forced o k ≡ true
      → IsKept k (escalate o writable k reason).0
  unfolding escalate
  escalate-IsKept k reason forced =
      by_condition (IsKept k) k.is_configured _ _
        (λ path.
          by_condition (IsKept k) (writable (kill_file_text reason true)) _ _
            (λ e. (
              file-forced
                  (record k {
                    file = some (kill_file_text reason true);
                    alert_latch = some (true, reason);
                    flatten_escalated = true;
                  })
                  (there-true k.is_configured path),
              refl,
            ))
            (λ e. (forced, refl)))
        (λ path. (forced, refl))

  -- A command sets a switch that has a path.
  absorb_command-IsKept :
      (k : Switch) (raw : String) (flatten : Bool) (reason : String)
      → k.is_configured ≡ true
      → parse_kill_line o raw ≡ some (flatten, reason)
      → IsKept k (absorb_command o writable k raw flatten reason).0
  unfolding absorb_command
  absorb_command-IsKept k raw flatten reason path parses =
      by_condition (IsKept k) (env_engaged o k.env_start || has_file k) _ _
        (λ on.
          by_condition (IsKept k) (flatten && not k.flatten_escalated) _ _
            (λ e. escalate-IsKept k reason (engaged-forced k on))
            (λ e. (engaged-forced k on, refl)))
        (λ off.
          by_condition (IsKept k) k.is_configured _ _
            (λ e.
              save_pending-IsKept (record k { pending_line = some raw }) raw path refl
                (rw parses refl))
            (λ e. cc))
    where
      engaged-forced :
          (k : Switch) → env_engaged o k.env_start || has_file k ≡ true → is_forced o k ≡ true
      engaged-forced k on = elim (Bool-cases (env_engaged o k.env_start)) [
        | inl e ↦ rw e refl
        | inr e ↦ file-forced k (rw e at on)
      ]

  -- A line keeps a set switch set.
  absorb_line-IsKept :
      (k : Switch) (raw : String) (p : Option (Bool × String))
      → k.is_configured ≡ true
      → parse_kill_line o raw ≡ p
      → is_forced o k ≡ true
      → IsKept k (absorb_line o writable k raw p).0
  unfolding absorb_line
  absorb_line-IsKept k raw none path parses forced = (forced, refl)
  absorb_line-IsKept k raw (some (flatten, reason)) path parses forced =
      absorb_command-IsKept k raw flatten reason path parses

  absorb_lines-IsKept :
      (k : Switch) (lines : List String)
      → k.is_configured ≡ true
      → is_forced o k ≡ true
      → is_forced o (absorb_lines o writable k lines).0 ≡ true
  unfolding absorb_lines
  absorb_lines-IsKept k [] path forced = forced
  absorb_lines-IsKept k (raw ∷ lines) path forced =
      let step = absorb_line o writable k raw (parse_kill_line o raw) in
      let (set, same) = absorb_line-IsKept k raw (parse_kill_line o raw) path refl forced in
      elim (Bool-cases step.1) [
        | inl e ↦ rw e (absorb_lines-IsKept step.0 lines (same ∙ path) set)
        | inr e ↦ rw e set
      ]

  -- Some line is a command.
  abbrev pub has_command : List String → Bool
  has_command [] = false
  has_command (raw ∷ lines) = is_there (parse_kill_line o raw) || has_command lines

  absorb_lines-command :
      (k : Switch) (lines : List String)
      → k.is_configured ≡ true
      → has_command lines ≡ true
      → is_forced o (absorb_lines o writable k lines).0 ≡ true
  unfolding absorb_lines absorb_line
  absorb_lines-command k [] path h = cc
  absorb_lines-command k (raw ∷ lines) path h = elim (Option-cases (parse_kill_line o raw)) [
    | inl e ↦ rw e (absorb_lines-command k lines path (rw e at h))
    | inr ((flatten, reason), e) ↦
        let (set, same) = absorb_command-IsKept k raw flatten reason path e in
        elim (Bool-cases (absorb_command o writable k raw flatten reason).1) [
          | inl f ↦
              rw (e, f)
                (absorb_lines-IsKept (absorb_command o writable k raw flatten reason).0 lines
                  (same ∙ path) set)
          | inr f ↦ rw (e, f) set
        ]
  ]

  -- The line that waits is a command, as each line is that `absorb_alerts` leaves waiting.
  abbrev pub IsPendingCommand : Switch → Type 0
  IsPendingCommand k =
      (k.pending_line ≡ none)
      ⊎ ((raw : String) × (k.pending_line ≡ some raw) × (is_there (parse_kill_line o raw) ≡ true))

  -- On a switch that has a latch path, once a poll of the channel delivers a KILL line, or one is
  -- already waiting to be saved, the switch is active: whether or not the latch file can be
  -- written, wherever the line stands among the others, and whatever the ledger says.
  pub absorb_alerts-active :
      (k : Switch) (lines : List String) (rows : List Logged)
      → k.is_configured ≡ true
      → IsPendingCommand k
      → is_there k.pending_line || has_command lines ≡ true
      → (poll o (absorb_alerts o writable k lines).0 rows).0.active ≡ true
  unfolding absorb_alerts
  absorb_alerts-active k lines rows path pending given =
      rw (poll-active o (absorb_alerts o writable k lines).0 rows, forced) refl
    where
      parses :
          (raw : String)
          → k.pending_line ≡ some raw
          → IsPendingCommand k
          → is_there (parse_kill_line o raw) ≡ true
      parses raw e (inl e') = cc
      parses raw e (inr (raw', e', is)) =
          subst (λ r. is_there (parse_kill_line o r) ≡ true) (some-injective raw' raw (sym e' ∙ e))
            is

      saved-forced :
          (p : Option String)
          → k.pending_line ≡ p
          → is_forced o
              (let (saved, is_saved) = save_pending o writable k p in
                if is_there p && not is_saved
                then (saved, false)
                else absorb_lines o writable saved lines).0
            ≡ true
      saved-forced none e = unfold save_pending in absorb_lines-command k lines path (rw e at given)
      saved-forced (some raw) e =
          let (set, same) = save_pending-IsKept k raw path e (parses raw e pending) in
          let saved = save_pending o writable k (some raw) in
          by_condition (λ x. is_forced o x ≡ true) (not saved.1) _ _ (λ f. set)
            (λ f. absorb_lines-IsKept saved.0 lines (same ∙ path) set)

      forced : is_forced o (absorb_alerts o writable k lines).0 ≡ true
      forced = unfold absorb_alerts in saved-forced k.pending_line refl
