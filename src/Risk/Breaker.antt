-- ===== src/Risk/Breaker.antt =====
-- `Breaker` of src/pumpgrok/risk/breakers.py. A reading of the injected clock is an argument,
-- the same for all reads of one call; times and durations are counted in one fixed unit.
pub mod Valid
pub mod Probes
pub mod Cooldown
use pump_grok.Prelude.{
  ℕ, ◌+◌, ◌-◌, Bool, true, false, not, ◌&&◌, ◌||◌, Option, none, some, List, [], ◌∷◌, ltb, leb,
  ◌==◌, if◌then◌else◌,
}
use Prim.Native.Nat.{max}

pub record Breaker : Type 0 where
  pub threshold : ℕ
  pub cooldown_s : ℕ
  pub reset_after_ok : ℕ
  pub consecutive_failures : ℕ
  pub successes : ℕ
  pub opened_at : Option ℕ
  pub half_open : Bool
  pub probe_inflight : Bool
  pub trips : ℕ

pub data Phase : Type 0 where
  opened half_opened closed : Phase

-- `__init__`
unfoldable pub new : ℕ → ℕ → ℕ → Breaker
new failures cooldown_s reset_after_ok = record {
  threshold = max 1 failures;
  cooldown_s = cooldown_s;
  reset_after_ok = max 1 reset_after_ok;
  consecutive_failures = 0;
  successes = 0;
  opened_at = none;
  half_open = false;
  probe_inflight = false;
  trips = 0;
}

-- `is_open`, by the opening time: its value, and the breaker that reading it leaves.
unfoldable pub is_open_at : Option ℕ → Breaker → ℕ → Bool × Breaker
is_open_at none b now = (false, b)
is_open_at (some t) b now =
    if leb (t + b.cooldown_s) now
    then (
      false,
      record b {
        opened_at = none;
        half_open = true;
        consecutive_failures = b.threshold - 1;
        successes = 0;
      },
    )
    else (true, b)

unfoldable pub is_open : Breaker → ℕ → Bool × Breaker
unfolding is_open_at
is_open b now = is_open_at b.opened_at b now

unfoldable pub phase : Breaker → ℕ → Phase × Breaker
unfolding is_open
phase b now =
    let (now_open, b') = is_open b now in
    (if now_open then opened else if b'.consecutive_failures == 0 then closed else half_opened, b')

abbrev remaining_at : Option ℕ → Breaker → ℕ → ℕ
remaining_at none b now = 0
remaining_at (some t) b now = t + b.cooldown_s - now

-- `max(0.0, cooldown - (now - opened))`, where `-` on ℕ stops at zero.
unfoldable pub remaining_cooldown : Breaker → ℕ → ℕ
remaining_cooldown b now = remaining_at b.opened_at b now

-- `trip(at)`; the callers that give no time pass the clock's reading.
unfoldable pub trip : Breaker → ℕ → Breaker
trip b at = record b {
  opened_at = some at;
  trips = b.trips + 1;
  half_open = false;
  consecutive_failures = b.threshold;
  successes = 0;
}

unfoldable pub record_success : Breaker → Breaker
record_success b =
    if leb b.reset_after_ok (b.successes + 1)
    then record b { consecutive_failures = 0; successes = 0; opened_at = none; half_open = false }
    else record b { successes = b.successes + 1 }

abbrev pub is_none {ℓ} : {A : Type ℓ} → Option A → Bool
is_none none = true
is_none (some _) = false

unfoldable pub record_failure : Breaker → ℕ → Breaker
unfolding trip
record_failure b now =
    let b' = record b { consecutive_failures = b.consecutive_failures + 1; successes = 0 } in
    if leb b.threshold (b.consecutive_failures + 1) && is_none b.opened_at then trip b' now else b'

unfoldable pub admit_probe : Breaker → ℕ → Bool × Breaker
unfolding is_open
admit_probe b now =
    let (now_open, b') = is_open b now in
    if now_open
    then (false, b')
    else if not b'.half_open || b'.probe_inflight
    then (false, b')
    else (true, record b' { probe_inflight = true })

-- `none` is the `ValueError` of resolving a probe that is not in flight.
unfoldable pub resolve_probe : Breaker → Bool → ℕ → Option Breaker
unfolding record_success
resolve_probe b probe_ok now =
    if not b.probe_inflight
    then none
    else some (
        if probe_ok then record_success (record b { probe_inflight = false }) else record b {
          probe_inflight = false;
          consecutive_failures = b.threshold;
          successes = 0;
          opened_at = some now;
          trips = b.trips + 1;
        })

-- The calls that a breaker takes, each at a clock reading.
pub data Call : Type 0 where
  read : Call
  trips_at : ℕ → Call
  succeed : Call
  fail : Call
  admit : Call
  resolve : Bool → Call

abbrev pub keep_or : Breaker → Option Breaker → Breaker
keep_or b none = b
keep_or b (some b') = b'

-- One call; a `resolve` that raises leaves the breaker as it was.
unfoldable pub call : Breaker → ℕ × Call → Breaker
unfolding is_open trip record_success record_failure admit_probe resolve_probe
call b (now, read) = (is_open b now).1
call b (now, trips_at at) = trip b at
call b (now, succeed) = record_success b
call b (now, fail) = record_failure b now
call b (now, admit) = (admit_probe b now).1
call b (now, resolve probe_ok) = keep_or b (resolve_probe b probe_ok now)

unfoldable pub run : Breaker → List (ℕ × Call) → Breaker
run b [] = b
run b (c ∷ cs) = run (call b c) cs
