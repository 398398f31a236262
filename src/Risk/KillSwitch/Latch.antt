-- ===== src/Risk/KillSwitch/Latch.antt =====
-- What the latch file of the kill switch gives back: src/pumpgrok/risk/killswitch.py.
use pump_grok.Prelude.{
  Bool, true, false, not, ◌&&◌, ◌||◌, String, none, some, List, ◌⊎◌, inl, inr, Bool-cases,
  if◌then◌else◌, ◌≡◌, refl, ap, str_eq, eq_iff, arith,
}
use pump_grok.Risk.KillSwitch.Model.{
  TextOps, Switch, KillState, Logged, joined, starts_with, drop_chars, lstrip_marks, file_state,
  kill_file_text, env_engaged,
}
use pump_grok.Risk.KillSwitch.Poll.{
  poll, engaged_state, file_requests_flatten, unset_state, latched_state,
}

-- A reason that the file does not take for a request to flatten.
abbrev is_plain : String → Bool
is_plain reason =
    not (str_eq reason "FLATTEN" || str_eq reason "FLATTEN:")
    && not (starts_with reason "FLATTEN " || starts_with reason "FLATTEN:")

abbrev eighth : String → Bool
eighth s = starts_with (drop_chars 7 s) " "

eq-false : (s t : String) → (s ≡ t → ⊥) → str_eq s t ≡ false
eq-false s t h = ground (arith, eq_iff s t)

-- The line of a flatten request differs from the two that give no reason.
not-colon : (reason : String) → joined "FLATTEN " reason ≡ "FLATTEN:" → ⊥
unfolding joined starts_with drop_chars
not-colon reason e = let e' = ap eighth e in cc

not-bare : (reason : String) → joined "FLATTEN " reason ≡ "FLATTEN" → ⊥
unfolding joined starts_with drop_chars
not-bare reason e = let e' = ap eighth e in cc

requests : (reason : String) → starts_with (joined "FLATTEN " reason) "FLATTEN " ≡ true
unfolding joined starts_with
requests String.[] = refl
requests (String.◌∷◌ c s) = refl

stripped :
    (reason : String) → lstrip_marks (drop_chars 7 (joined "FLATTEN " reason)) ≡ lstrip_marks reason
unfolding joined drop_chars lstrip_marks
stripped reason = refl

-- The reason that the latch file of an engagement gives back: as it was, where a flatten's reason
-- begins with no space or colon, and a plain engagement's reason is not itself a request.
file_state-kill_file_text :
    (reason : String) (flatten : Bool)
    → (if flatten then str_eq (lstrip_marks reason) reason else is_plain reason) ≡ true
    → file_state (kill_file_text reason flatten)
      ≡ record { active = true; source = "file"; reason = reason; flatten_requested = flatten }
unfolding file_state kill_file_text
file_state-kill_file_text reason true h =
    rw
      (
        eq-false (joined "FLATTEN " reason) "FLATTEN" (not-bare reason),
        eq-false (joined "FLATTEN " reason) "FLATTEN:" (not-colon reason),
        requests reason,
        stripped reason,
        (eq_iff (lstrip_marks reason) reason).0 h,
      )
      refl
file_state-kill_file_text reason false h = ground arith

-- What the first line, stripped, of a text keeps that begins with the word and a space: the word, and
-- the space if anything of the line follows.
abbrev pub IsFirstLine : (String → String) → Type 0
IsFirstLine line =
    (s : String)
    → (line (joined "FLATTEN " s) ≡ "FLATTEN")
      ⊎ ((t : String) × (line (joined "FLATTEN " s) ≡ joined "FLATTEN " t))

abbrev IsRequest : KillState → Type 0
IsRequest state = (state.active ≡ true) × (state.flatten_requested ≡ true)

file_state-IsRequest : (reason : String) → IsRequest (file_state (joined "FLATTEN " reason))
unfolding file_state
file_state-IsRequest reason =
    rw
      (
        eq-false (joined "FLATTEN " reason) "FLATTEN" (not-bare reason),
        eq-false (joined "FLATTEN " reason) "FLATTEN:" (not-colon reason),
        requests reason,
      )
      (refl, refl)

module _ (o : TextOps) (line : IsFirstLine o.first_line) where
  latched-IsRequest :
      (reason : String) → IsRequest (file_state (o.first_line (kill_file_text reason true)))
  unfolding kill_file_text
  latched-IsRequest reason = elim (line reason) [
    | inl bare ↦ rw bare (unfold file_state in (refl, refl))
    | inr (t, more) ↦ rw more (file_state-IsRequest t)
  ]

  -- A flatten request that is in the latch file is in force after a restart, on a switch that has a
  -- latch path: whatever its reason, also an empty one, one with marks or spaces at its ends or with
  -- more lines, and whatever the environment, the ledger and the alerts say, the switch is active
  -- and asks for the flatten. The first line, stripped, is asked to keep the word that begins the
  -- file, and its space if more of the line follows.
  pub poll-latched_flatten :
      (k : Switch) (rows : List Logged) (reason : String)
      → k.is_configured ≡ true
      → k.file ≡ some (kill_file_text reason true)
      → k.alert_latch ≡ none
      → ((poll o k rows).0.active ≡ true) × ((poll o k rows).0.flatten_requested ≡ true)
  unfolding poll engaged_state file_requests_flatten unset_state latched_state
  poll-latched_flatten k rows reason has_path written restarted =
      let (active, flatten) = latched-IsRequest reason in
      elim (Bool-cases (env_engaged o k.env_start)) [
        | inl e ↦ rw (e, written, has_path, flatten) (ground arith, ground arith)
        | inr e ↦ rw (e, has_path, written, restarted, active, flatten) (ground arith, ground arith)
      ]
