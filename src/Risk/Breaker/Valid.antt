-- ===== src/Risk/Breaker/Valid.antt =====
-- A breaker's counters stay within their limits under every call.
use pump_grok.Prelude.{ℕ, ◌≤◌, ◌<◌, ◌≡◌, none, List, [], ◌∷◌, arith}
use pump_grok.Risk.Breaker.{
  Breaker, new, is_open, record_success, Call, read, trips_at, succeed, fail, admit, resolve, call,
  run,
}

pub record IsValid (b : Breaker) : Type 0 where
  pub positive : 1 ≤ b.threshold
  pub reset_positive : 1 ≤ b.reset_after_ok
  pub streak : b.successes < b.reset_after_ok
  -- A breaker that is not open has fewer failures in a row than trip it.
  pub untripped : b.opened_at ≡ none → b.consecutive_failures < b.threshold

is_open-IsValid : (b : Breaker) (now : ℕ) → IsValid b → IsValid (is_open b now).1
unfolding is_open
is_open-IsValid b now v = ground arith

record_success-IsValid : (b : Breaker) → IsValid b → IsValid (record_success b)
unfolding record_success
record_success-IsValid b v = ground arith

call-IsValid : (b : Breaker) (c : ℕ × Call) → IsValid b → IsValid (call b c)
unfolding call
call-IsValid b (now, read) v = is_open-IsValid b now v
call-IsValid b (now, trips_at at) v = ground arith
call-IsValid b (now, succeed) v = record_success-IsValid b v
call-IsValid b (now, fail) v = ground arith
call-IsValid b (now, admit) v = ground arith
call-IsValid b (now, resolve probe_ok) v = ground arith

run-IsValid : (b : Breaker) (cs : List (ℕ × Call)) → IsValid b → IsValid (run b cs)
unfolding run
run-IsValid b [] v = v
run-IsValid b (c ∷ cs) v = run-IsValid (call b c) cs (call-IsValid b c v)

-- A new breaker keeps its limits through every sequence of calls: a success streak below the
-- reset limit and, whenever it is not open, fewer failures in a row than the threshold.
pub new-run-IsValid :
    (failures cooldown_s reset_after_ok : ℕ) (cs : List (ℕ × Call))
    → IsValid (run (new failures cooldown_s reset_after_ok) cs)
unfolding new
new-run-IsValid failures cooldown_s reset_after_ok cs = run-IsValid _ cs (omega arith)
