-- ===== src/Risk/Breaker/Probes.antt =====
-- At most one probe is in flight.
use pump_grok.Prelude.{ℕ, ◌+◌, ◌≤◌, ◌≡◌, Bool, true, false, List, [], ◌∷◌, arith}
use pump_grok.Risk.Breaker.{
  Breaker, new, admit_probe, Call, read, trips_at, succeed, fail, admit, resolve, call, run,
}

abbrev pub bit : Bool → ℕ
bit true = 1
bit false = 0

bit-le-one : (b : Bool) → bit b ≤ 1
bit-le-one true = omega arith
bit-le-one false = omega arith

-- The admissions that a call grants, and the resolutions that it accepts.
abbrev pub granted : Breaker → ℕ × Call → ℕ
granted b (now, admit) = bit (admit_probe b now).0
granted b (now, _) = 0

abbrev settled : Breaker → ℕ × Call → ℕ
settled b (now, resolve probe_ok) = bit b.probe_inflight
settled b (now, _) = 0

unfoldable pub grants : Breaker → List (ℕ × Call) → ℕ
grants b [] = 0
grants b (c ∷ cs) = granted b c + grants (call b c) cs

unfoldable pub settlements : Breaker → List (ℕ × Call) → ℕ
settlements b [] = 0
settlements b (c ∷ cs) = settled b c + settlements (call b c) cs

call-probes :
    (b : Breaker) (c : ℕ × Call)
    → bit (call b c).probe_inflight + settled b c ≡ bit b.probe_inflight + granted b c
unfolding call
call-probes b (now, read) = ground arith
call-probes b (now, trips_at at) = ground arith
call-probes b (now, succeed) = ground arith
call-probes b (now, fail) = ground arith
call-probes b (now, admit) = ground arith
call-probes b (now, resolve probe_ok) = ground arith

run-probes :
    (b : Breaker) (cs : List (ℕ × Call))
    → bit (run b cs).probe_inflight + settlements b cs ≡ bit b.probe_inflight + grants b cs
unfolding run grants settlements
run-probes b [] = omega arith
run-probes b (c ∷ cs) = omega (arith, call-probes b c, run-probes (call b c) cs)

-- Over every sequence of calls on a new breaker, the probes admitted are those resolved and the
-- one in flight, if any: a second probe is never admitted beside one that is unresolved.
pub single_probe :
    (failures cooldown_s reset_after_ok : ℕ) (cs : List (ℕ × Call))
    → let b = new failures cooldown_s reset_after_ok in
      (grants b cs ≡ settlements b cs + bit (run b cs).probe_inflight)
      × (grants b cs ≤ settlements b cs + 1)
unfolding new
single_probe failures cooldown_s reset_after_ok cs =
    let all = run-probes (new failures cooldown_s reset_after_ok) cs in
    let one = bit-le-one (run (new failures cooldown_s reset_after_ok) cs).probe_inflight in
    (omega (arith, all), omega (arith, all, one))
