-- ===== src/Risk/Domain.antt =====
-- The domain breakers of src/pumpgrok/risk/breakers.py, each a `Breaker` with its own trip
-- condition.
pub mod Stale
pub mod Rejects
use pump_grok.Prelude.{
  ℕ, ◌+◌, ◌-◌, Bool, true, false, ◌&&◌, ◌||◌, not, String, Option, none, some, List, [], ◌∷◌, ◌++◌,
  ltb, leb, str_eq, if◌then◌else◌,
}
use pump_grok.Prelude.Int.{ℤ, pos, leb_ℤ}
use pump_grok.Prelude.Lists.{length, contains}
use Prim.Native.Nat.{max}
use pump_grok.Risk.Breaker
use pump_grok.Risk.Breaker.{Breaker, Phase, new, is_open, phase, trip, record_success}

pub record DataStaleBreaker : Type 0 where
  pub base : Breaker
  pub data_stale_s : ℕ
  pub max_misses : ℕ
  pub fresh_window_s : ℕ
  pub last_tick : Option ℕ
  pub consecutive_misses : ℕ
  pub prev_tick : Option ℕ

-- `DataStaleBreaker.__init__`
unfoldable pub new_data_stale : ℕ → ℕ → ℕ → ℕ → ℕ → DataStaleBreaker
unfolding new
new_data_stale data_stale_s max_misses cooldown_s reset_after_ok fresh_window_s = record {
  base = new max_misses cooldown_s reset_after_ok;
  data_stale_s = data_stale_s;
  max_misses = max_misses;
  fresh_window_s = fresh_window_s;
  last_tick = none;
  consecutive_misses = 0;
  prev_tick = none;
}

-- `prev is not None and ts - prev > fresh_window_s`
abbrev pub is_gap : Option ℕ → ℕ → ℕ → Bool
is_gap none ts window = false
is_gap (some p) ts window = ltb (p + window) ts

unfoldable pub note_tick : DataStaleBreaker → ℕ → DataStaleBreaker
unfolding record_success
note_tick d ts =
    let base =
      if is_gap d.prev_tick ts d.fresh_window_s then record d.base { successes = 0 } else d.base in
    record d {
      base = record_success base;
      last_tick = some ts;
      consecutive_misses = 0;
      prev_tick = some ts;
    }

-- The miss's own time is not used: the trip is anchored at the clock's reading.
unfoldable pub note_miss : DataStaleBreaker → ℕ → DataStaleBreaker
unfolding is_open trip
note_miss d now =
    let d' = record d { consecutive_misses = d.consecutive_misses + 1 } in
    if leb d.max_misses (d.consecutive_misses + 1)
    then (let (now_open, base) = is_open d.base now in
        record d' { base = if now_open then base else trip base now })
    else d'

-- `last_tick is not None and now - last_tick >= data_stale_s`
abbrev pub is_silent : Option ℕ → ℕ → ℕ → Bool
is_silent none now limit = false
is_silent (some t) now limit = leb (t + limit) now

unfoldable pub evaluate_stale : DataStaleBreaker → ℕ → Phase × DataStaleBreaker
unfolding is_open trip phase
evaluate_stale d now =
    let (now_open, base) = is_open d.base now in
    let tripped =
      if now_open || base.half_open
      then base
      else if is_silent d.last_tick now d.data_stale_s
      then trip base now
      else base in
    let (p, last) = phase tripped now in (p, record d { base = last })

pub record LossVelocityBreaker : Type 0 where
  pub base : Breaker
  pub window_s : ℕ
  pub reset_window_s : ℕ
  pub points : List (ℕ × ℤ)

-- `LossVelocityBreaker.__init__`
unfoldable pub new_loss_velocity : ℕ → ℕ → ℕ → LossVelocityBreaker
unfolding new
new_loss_velocity window_s cooldown_s reset_window_s = record {
  base = new 1 cooldown_s 1;
  window_s = window_s;
  reset_window_s = reset_window_s;
  points = [];
}

unfoldable pub clear_points : LossVelocityBreaker → LossVelocityBreaker
clear_points v = record v { points = [] }

-- `while len(points) > 1 and points[0][0] < ts - horizon: popleft()`
unfoldable pub prune_points : ℕ → ℕ → List (ℕ × ℤ) → List (ℕ × ℤ)
prune_points ts horizon [] = []
prune_points ts horizon (p ∷ []) = p ∷ []
prune_points ts horizon (p ∷ q ∷ ps) =
    if ltb (p.0 + horizon) ts then prune_points ts horizon (q ∷ ps) else p ∷ q ∷ ps

unfoldable pub note_equity : LossVelocityBreaker → ℕ → ℤ → LossVelocityBreaker
unfolding prune_points
note_equity v ts equity_lamports = record v {
  points =
      prune_points ts (max v.window_s v.reset_window_s) (v.points ++ (ts, equity_lamports) ∷ []);
}

-- The points of the last `window_s`.
unfoldable pub in_window : ℕ → ℕ → List (ℕ × ℤ) → List (ℕ × ℤ)
in_window now window_s [] = []
in_window now window_s (p ∷ ps) =
    if leb now (p.0 + window_s) then p ∷ in_window now window_s ps else in_window now window_s ps

abbrev pub last_of : ℕ × ℤ → List (ℕ × ℤ) → ℕ × ℤ
last_of p [] = p
last_of p (q ∷ qs) = last_of q qs

-- The oldest and the latest equity of a window; `none` without two points or with an oldest
-- equity that is not positive.
unfoldable pub window_ends : List (ℕ × ℤ) → Option (ℤ × ℤ)
window_ends [] = none
window_ends (p ∷ []) = none
window_ends (p ∷ q ∷ qs) = if leb_ℤ p.1 (pos 0) then none else some (p.1, (last_of q qs).1)

abbrev pub test_ends : (ℤ → ℤ → Bool) → Option (ℤ × ℤ) → Bool
test_ends f none = false
test_ends f (some (old, new)) = f old new

-- The two tests on the ratio `(old - new) / old`, which Python computes in binary floats: at
-- least the loss fraction, and below the reset fraction.
module _ (falls calms : ℤ → ℤ → Bool) where
  unfoldable pub evaluate_velocity : LossVelocityBreaker → ℕ → Phase × LossVelocityBreaker
  unfolding is_open trip phase record_success in_window window_ends
  evaluate_velocity v now =
      let (now_open, base) = is_open v.base now in
      let next =
        if now_open || base.half_open
        then (if test_ends calms (window_ends (in_window now v.reset_window_s v.points))
            then record_success base
            else base)
        else if test_ends falls (window_ends (in_window now v.window_s v.points))
        then trip base now
        else base in
      let (p, last) = phase next now in (p, record v { base = last })

pub record ExecErrorsBreaker : Type 0 where
  pub base : Breaker
  pub max_rejects : ℕ
  pub window_s : ℕ
  pub rejects : List ℕ

-- `ExecErrorsBreaker.__init__`
unfoldable pub new_exec_errors : ℕ → ℕ → ℕ → ExecErrorsBreaker
unfolding new
new_exec_errors max_rejects window_s cooldown_s = record {
  base = new max_rejects cooldown_s 1;
  max_rejects = max_rejects;
  window_s = window_s;
  rejects = [];
}

unfoldable pub clear_rejects : ExecErrorsBreaker → ExecErrorsBreaker
clear_rejects x = record x { rejects = [] }

abbrev pub exec_error_reasons : List String
exec_error_reasons = "tx_dropped" ∷ "slippage_exceeded" ∷ "quote_unavailable" ∷ "rpc_error" ∷ []

-- `while rejects and rejects[0] < ts - window_s: popleft()`
unfoldable pub prune_rejects : ℕ → ℕ → List ℕ → List ℕ
prune_rejects ts window_s [] = []
prune_rejects ts window_s (r ∷ rs) =
    if ltb (r + window_s) ts then prune_rejects ts window_s rs else r ∷ rs

unfoldable pub note_reject : ExecErrorsBreaker → ℕ → String → ℕ → ExecErrorsBreaker
unfolding is_open trip prune_rejects contains
note_reject x ts reason now =
    if not (contains reason exec_error_reasons)
    then x
    else let rejects = prune_rejects ts x.window_s (x.rejects ++ ts ∷ []) in
      let x' = record x { rejects = rejects } in
      if leb x.max_rejects (length rejects)
      then (let (now_open, base) = is_open x.base now in
          record x' { base = if now_open then base else trip base ts })
      else x'
