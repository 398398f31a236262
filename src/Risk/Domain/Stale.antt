-- ===== src/Risk/Domain/Stale.antt =====
-- When the price feed's breaker trips, and how fresh ticks reset it.
use pump_grok.Prelude.{
  ℕ, ◌+◌, ◌≤◌, ◌<◌, ◌≡◌, refl, true, false, Option, none, some, List, [], ◌∷◌, arith,
}
use pump_grok.Prelude.Lists.{length}
use pump_grok.Risk.Breaker.{opened, closed}
use pump_grok.Risk.Domain.{DataStaleBreaker, note_tick, is_gap, evaluate_stale}

-- Closed, with no failure on record and a cooldown to wait.
abbrev pub IsCalm : DataStaleBreaker → Type 0
IsCalm d =
    (d.base.opened_at ≡ none)
    × (d.base.half_open ≡ false)
    × (d.base.consecutive_failures ≡ 0)
    × (0 < d.base.threshold)
    × (0 < d.base.cooldown_s)

-- On a breaker that is closed, with no failure on record and a cooldown to wait, the evaluation is
-- closed before the first tick; after it, it reports open and opens the breaker at the reading if
-- the last tick is the limit old or older, and else it is closed and leaves the breaker unopened.
pub evaluate_stale-silence :
    (d : DataStaleBreaker) (now : ℕ)
    → IsCalm d
    → let (p, d') = evaluate_stale d now in
      (d.last_tick ≡ none → (p ≡ closed) × (d'.base.opened_at ≡ none))
      × ((t : ℕ)
          → d.last_tick ≡ some t
          → (t + d.data_stale_s ≤ now → (p ≡ opened) × (d'.base.opened_at ≡ some now))
            × (now < t + d.data_stale_s → (p ≡ closed) × (d'.base.opened_at ≡ none)))
unfolding evaluate_stale
evaluate_stale-silence d now h = (
  λ unticked. (ground arith, ground arith),
  λ t ticked. (λ silent. (ground arith, ground arith), λ fresh. (ground arith, ground arith)),
)

-- Ticks that each come within the window of the one before, the first of the last tick.
abbrev pub AreFresh : Option ℕ → ℕ → List ℕ → Type 0
AreFresh p window [] = Unit
AreFresh p window (t ∷ ts) = (is_gap p t window ≡ false) × AreFresh (some t) window ts

unfoldable pub ticks : DataStaleBreaker → List ℕ → DataStaleBreaker
ticks d [] = d
ticks d (t ∷ ts) = ticks (note_tick d t) ts

ticks-streak :
    (d : DataStaleBreaker) (ts : List ℕ)
    → AreFresh d.prev_tick d.fresh_window_s ts
    → d.base.successes + length ts < d.base.reset_after_ok
    → let d' = ticks d ts in
      (d'.base.opened_at ≡ d.base.opened_at)
      × (d'.base.half_open ≡ d.base.half_open)
      × (d'.base.successes ≡ d.base.successes + length ts)
      × (d'.base.reset_after_ok ≡ d.base.reset_after_ok)
      × (d'.fresh_window_s ≡ d.fresh_window_s)
unfolding ticks note_tick
ticks-streak d [] f lt = (refl, refl, omega arith, refl, refl)
ticks-streak d (t ∷ ts) f lt = ground (arith, ticks-streak (note_tick d t) ts)

-- A breaker with no success on record, open or half-open, stays so through fresh ticks fewer than
-- the reset limit. If they are one short of it, the next tick closes it when it too is fresh, and
-- after a gap it closes only where the limit is one.
pub ticks_reset :
    (d : DataStaleBreaker) (ts : List ℕ) (t : ℕ)
    → d.base.successes ≡ 0
    → AreFresh d.prev_tick d.fresh_window_s ts
    → length ts + 1 ≡ d.base.reset_after_ok
    → let e = ticks d ts in
      let e' = note_tick e t in
      (e.base.opened_at ≡ d.base.opened_at)
      × (is_gap e.prev_tick t e.fresh_window_s ≡ false
          → (e'.base.opened_at ≡ none)
            × (e'.base.half_open ≡ false)
            × (e'.base.consecutive_failures ≡ 0))
      × (is_gap e.prev_tick t e.fresh_window_s ≡ true
          → 1 < d.base.reset_after_ok
          → (e'.base.opened_at ≡ d.base.opened_at) × (e'.base.successes ≡ 1))
unfolding note_tick
ticks_reset d ts t zero_streak f n =
    let (same, half, streak, limit, window) = ticks-streak d ts f (omega arith) in
    (
      same,
      λ fresh. (ground arith, ground arith, ground arith),
      λ gap more. (ground arith, ground arith),
    )
