-- ===== src/Risk/Breaker/Cooldown.antt =====
-- The cooldown of an open breaker, its trip and its recovery.
use pump_grok.Prelude.{
  ℕ, ◌+◌, ◌<◌, ◌≡◌, refl, true, false, none, some, List, [], ◌∷◌, subst, sym, ◌∙◌, arith,
}
use Prim.Native.Nat.{max}
use pump_grok.Prelude.Lists.{length}
use pump_grok.Risk.Breaker.Probes.{granted, grants}
use pump_grok.Risk.Breaker.{
  Breaker, new, is_open, is_open_at, admit_probe, resolve_probe, Call, read, trips_at, succeed,
  fail, admit, resolve, call, run, record_failure,
}

-- Before `limit`, and neither a success, a forced trip nor a probe's outcome.
abbrev pub IsWaiting : ℕ → ℕ × Call → Type 0
IsWaiting limit (now, read) = now < limit
IsWaiting limit (now, fail) = now < limit
IsWaiting limit (now, admit) = now < limit
IsWaiting limit (now, _) = ⊥

abbrev pub AllWaiting : ℕ → List (ℕ × Call) → Type 0
AllWaiting limit [] = Unit
AllWaiting limit (c ∷ cs) = IsWaiting limit c × AllWaiting limit cs

call-opened :
    (b : Breaker) (t : ℕ) (c : ℕ × Call)
    → b.opened_at ≡ some t
    → IsWaiting (t + b.cooldown_s) c
    → ((call b c).opened_at ≡ some t) × ((call b c).cooldown_s ≡ b.cooldown_s)
unfolding call
call-opened b t (now, read) e w = ground arith
call-opened b t (now, trips_at at) e w = absurd w
call-opened b t (now, succeed) e w = absurd w
call-opened b t (now, fail) e w = ground arith
call-opened b t (now, admit) e w = ground arith
call-opened b t (now, resolve probe_ok) e w = absurd w

run-opened :
    (b : Breaker) (t : ℕ) (cs : List (ℕ × Call))
    → b.opened_at ≡ some t
    → AllWaiting (t + b.cooldown_s) cs
    → ((run b cs).opened_at ≡ some t) × ((run b cs).cooldown_s ≡ b.cooldown_s)
unfolding run
run-opened b t [] e w = (e, refl)
run-opened b t (c ∷ cs) e w =
    let step = call-opened b t c e w.0 in
    let rest =
      run-opened (call b c) t cs step.0 (subst (λ n. AllWaiting (t + n) cs) (sym step.1) w.1) in
    (rest.0, rest.1 ∙ step.1)

granted-opened :
    (b : Breaker) (t : ℕ) (c : ℕ × Call)
    → b.opened_at ≡ some t
    → IsWaiting (t + b.cooldown_s) c
    → granted b c ≡ 0
unfolding admit_probe
granted-opened b t (now, admit) e w = ground arith
granted-opened b t (now, read) e w = refl
granted-opened b t (now, trips_at at) e w = refl
granted-opened b t (now, succeed) e w = refl
granted-opened b t (now, fail) e w = refl
granted-opened b t (now, resolve probe_ok) e w = refl

grants-opened :
    (b : Breaker) (t : ℕ) (cs : List (ℕ × Call))
    → b.opened_at ≡ some t
    → AllWaiting (t + b.cooldown_s) cs
    → grants b cs ≡ 0
unfolding grants
grants-opened b t [] e w = refl
grants-opened b t (c ∷ cs) e w =
    let step = call-opened b t c e w.0 in
    let first = granted-opened b t c e w.0 in
    let rest =
      grants-opened (call b c) t cs step.0 (subst (λ n. AllWaiting (t + n) cs) (sym step.1) w.1) in
    omega (arith, first, rest)

-- A breaker opened at `t` refuses every probe until the cooldown is over, through any reads,
-- failures and probe requests before that time, and a read before it still finds it open. Only
-- a recorded success, a forced trip or a probe's outcome could change that.
pub cooldown_holds :
    (b : Breaker) (t : ℕ) (cs : List (ℕ × Call))
    → b.opened_at ≡ some t
    → AllWaiting (t + b.cooldown_s) cs
    → (grants b cs ≡ 0) × ((now : ℕ) → now < t + b.cooldown_s → (is_open (run b cs) now).0 ≡ true)
unfolding is_open
cooldown_holds b t cs e w =
    (grants-opened b t cs e w, λ now lt. still_open now lt (run-opened b t cs e w))
  where
    still_open :
        (now : ℕ)
        → now < t + b.cooldown_s
        → ((run b cs).opened_at ≡ some t) × ((run b cs).cooldown_s ≡ b.cooldown_s)
        → (is_open_at (run b cs).opened_at (run b cs) now).0 ≡ true
    still_open now lt (o, c) = ground arith

-- Failures in a row, one at each of the times.
abbrev pub fails : List ℕ → List (ℕ × Call)
fails [] = []
fails (t ∷ ts) = (t, fail) ∷ fails ts

run-fails :
    (b : Breaker) (ts : List ℕ)
    → b.opened_at ≡ none
    → b.consecutive_failures + length ts < b.threshold
    → let b' = run b (fails ts) in
      (b'.opened_at ≡ none)
      × (b'.consecutive_failures ≡ b.consecutive_failures + length ts)
      × (b'.threshold ≡ b.threshold)
      × (b'.trips ≡ b.trips)
unfolding run call
run-fails b [] e lt = (e, omega arith, refl, refl)
run-fails b (t ∷ ts) e lt = ground (arith, run-fails (record_failure b t) ts)

-- On a new breaker, failures in a row trip it exactly at the threshold: with fewer recorded it is
-- not open, and the next failure opens it, at its own time and as the first trip, if it is the
-- threshold's, and leaves it unopened if it is not.
new-fails :
    (failures cooldown_s reset_after_ok : ℕ) (ts : List ℕ) (now : ℕ)
    → length ts < max 1 failures
    → let b = run (new failures cooldown_s reset_after_ok) (fails ts) in
      let b' = call b (now, fail) in
      (b.opened_at ≡ none)
      × (length ts + 1 ≡ max 1 failures → (b'.opened_at ≡ some now) × (b'.trips ≡ 1))
      × (length ts + 1 < max 1 failures → b'.opened_at ≡ none)
unfolding new call
new-fails failures cooldown_s reset_after_ok ts now lt =
    let (shut, streak, same, count) =
      run-fails (new failures cooldown_s reset_after_ok) ts refl (omega arith) in
    (shut, λ eq. (ground arith, ground arith), λ lt'. ground arith)

-- A half-open breaker whose admitted probe fails is open again for a whole cooldown, in which
-- reads find it open and no further probe is admitted; but its `half_open` mark stays set, with
-- no probe in flight, so by that mark it still reads as half-open.
pub failed_probe_lem :
    (b b' : Breaker) (now later : ℕ)
    → b.half_open ≡ true
    → resolve_probe b false now ≡ some b'
    → later < now + b.cooldown_s
    → ((is_open b' later).0 ≡ true)
      × ((admit_probe b' later).0 ≡ false)
      × (b'.half_open ≡ true)
      × (b'.probe_inflight ≡ false)
unfolding is_open admit_probe resolve_probe
failed_probe_lem b b' now later h e lt = (ground arith, ground arith, ground arith, ground arith)
