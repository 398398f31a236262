-- ===== src/Risk/BreakerTests.antt =====
-- The breakers' theorems on short runs: a breaker of two failures, a cooldown of ten and two
-- successes to reset.
use pump_grok.Prelude.{
  ℕ, ◌+◌, ◌≤◌, ◌<◌, ◌≡◌, refl, true, false, String, Option, none, some, List, [], ◌∷◌, arith,
}
use pump_grok.Prelude.Int.{pos}
use pump_grok.Ledger.Events.{Event, breaker_tripped, breaker_reset, paper}
use pump_grok.Risk.Breaker.{
  Breaker, new, is_open, admit_probe, resolve_probe, Call, read, succeed, fail, admit, resolve, run,
  opened, closed,
}
use pump_grok.Risk.Breaker.Valid.{IsValid, new-run-IsValid}
use pump_grok.Risk.Breaker.Probes.{grants, settlements, bit, single_probe}
use pump_grok.Risk.Breaker.Cooldown.{cooldown_holds, failed_probe_lem}
use pump_grok.Risk.Domain.{DataStaleBreaker, evaluate_stale}
use pump_grok.Risk.Domain.Stale.{evaluate_stale-silence}
use pump_grok.Risk.Rebuild.{rebuild, rebuild_cooldown}

-- Two failures trip it; a probe admitted after the cooldown fails.
abbrev calls : List (ℕ × Call)
calls =
    (1, fail)
    ∷ (2, fail)
    ∷ (5, admit)
    ∷ (13, admit)
    ∷ (14, admit)
    ∷ (15, resolve false)
    ∷ (16, succeed)
    ∷ []

abbrev quiet_calls : List (ℕ × Call)
quiet_calls = (3, read) ∷ (4, fail) ∷ (5, admit) ∷ []

abbrev breaker : Breaker
breaker = record {
  threshold = 2;
  cooldown_s = 10;
  reset_after_ok = 2;
  consecutive_failures = 0;
  successes = 0;
  opened_at = none;
  half_open = false;
  probe_inflight = false;
  trips = 0;
}

abbrev tripped : Breaker
tripped = record breaker { opened_at = some 2; consecutive_failures = 2; trips = 1 }

abbrev probing : Breaker
probing = record breaker {
  half_open = true;
  probe_inflight = true;
  consecutive_failures = 1;
  trips = 1;
}

abbrev reopened : Breaker
reopened = record breaker {
  opened_at = some 15;
  half_open = true;
  consecutive_failures = 2;
  trips = 2;
}

new-run-IsValid_example : IsValid (run (new 2 10 2) calls)
new-run-IsValid_example = new-run-IsValid 2 10 2 calls

single_probe_example :
    (grants (new 2 10 2) calls
      ≡ settlements (new 2 10 2) calls + bit (run (new 2 10 2) calls).probe_inflight)
    × (grants (new 2 10 2) calls ≤ settlements (new 2 10 2) calls + 1)
single_probe_example = single_probe 2 10 2 calls

cooldown_holds_example :
    (grants tripped quiet_calls ≡ 0)
    × ((now : ℕ) → now < 12 → (is_open (run tripped quiet_calls) now).0 ≡ true)
cooldown_holds_example = cooldown_holds tripped 2 quiet_calls refl (omega arith)

failed_probe_lem_example :
    ((is_open reopened 20).0 ≡ true)
    × ((admit_probe reopened 20).0 ≡ false)
    × (reopened.half_open ≡ true)
    × (reopened.probe_inflight ≡ false)
failed_probe_lem_example = failed_probe_lem probing reopened 15 20 refl resolved (omega arith)
  where
    resolved : resolve_probe probing false 15 ≡ some reopened
    resolved = unfold resolve_probe in refl

-- A feed breaker that last ticked at 3.
abbrev feed : DataStaleBreaker
feed = record {
  base = breaker;
  data_stale_s = 5;
  max_misses = 2;
  fresh_window_s = 4;
  last_tick = some 3;
  consecutive_misses = 0;
  prev_tick = some 3;
}

evaluate_stale-silence_example :
    let (p, d') = evaluate_stale feed 9 in
    (feed.last_tick ≡ none → (p ≡ closed) × (d'.base.opened_at ≡ none))
    × ((t : ℕ)
        → feed.last_tick ≡ some t
        → (t + 5 ≤ 9 → (p ≡ opened) × (d'.base.opened_at ≡ some 9))
          × (9 < t + 5 → (p ≡ closed) × (d'.base.opened_at ≡ none)))
evaluate_stale-silence_example =
    evaluate_stale-silence feed 9 (refl, refl, refl, omega arith, omega arith)

abbrev trip_event : Event
trip_event = record {
  seq = 1;
  ts_utc = "t";
  correlation_id = "c";
  body = breaker_tripped (record {
    source = paper;
    breaker = "data_stale";
    metric = "m";
    threshold = "2";
    cooldown_s = pos 10;
  });
}

abbrev reset_event : Event
reset_event = record {
  seq = 2;
  ts_utc = "u";
  correlation_id = "c";
  body =
      breaker_reset
        (record { source = paper; breaker = "exec_errors"; after_s = pos 10; probe_ok = true });
}

abbrev parse_ts : String → Option ℕ
parse_ts text = some 100

rebuild_cooldown_example :
    let b' = rebuild parse_ts "data_stale" (trip_event ∷ trip_event ∷ reset_event ∷ []) breaker in
    (b'.opened_at ≡ some 100) × ((is_open b' 105).0 ≡ true) × ((admit_probe b' 105).0 ≡ false)
rebuild_cooldown_example =
    rebuild_cooldown parse_ts "data_stale" (trip_event ∷ []) (reset_event ∷ []) trip_event _ breaker
      100 105 refl refl refl (refl, tt) (omega arith)
