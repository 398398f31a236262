-- ===== src/Risk/Rebuild.antt =====
-- `BreakerSet.rebuild` of src/pumpgrok/risk/breakers.py: openness from the ledger after a restart.
use pump_grok.Prelude.{
  ℕ, ◌+◌, ◌<◌, ◌≡◌, refl, true, false, String, Option, none, some, List, [], ◌∷◌, ◌++◌, arith,
  str_eq, if◌then◌else◌,
}
use pump_grok.Ledger.Events.{Event, Body, BreakerTripped, breaker_tripped, breaker_reset}
use pump_grok.Risk.Breaker.{Breaker, is_open, admit_probe}

-- `open_since` and `trips` of one breaker.
pub record Openness : Type 0 where
  pub open_since : Option ℕ
  pub trips : ℕ

-- `parse_ts_utc` on stored text; `none` is its `ValueError`.
module _ (parse_ts_utc : String → Option ℕ) where
  abbrev tripped_at : Option ℕ → Openness → Openness
  tripped_at none o = o
  tripped_at (some t) o = record { open_since = some t; trips = o.trips + 1 }

  -- One round of the loop over the rows, for the breaker `name`.
  unfoldable pub observe_row : String → Openness → Event → Openness
  observe_row name o e = elim e.body [
    | breaker_tripped row ↦
        if str_eq row.breaker name then tripped_at (parse_ts_utc e.ts_utc) o else o
    | breaker_reset row ↦ if str_eq row.breaker name then record o { open_since = none } else o
    | _ ↦ o
  ]

  unfoldable pub scan : String → Openness → List Event → Openness
  scan name o [] = o
  scan name o (e ∷ es) = scan name (observe_row name o e) es

  -- The loop over `open_since`, for one breaker.
  unfoldable pub restore : Openness → Breaker → Breaker
  restore o b = elim o.open_since [
    | none ↦ b
    | some since ↦ record b {
      opened_at = some since;
      trips = o.trips;
      consecutive_failures = b.threshold;
    }
  ]

  unfoldable pub rebuild : String → List Event → Breaker → Breaker
  unfolding scan restore observe_row
  rebuild name events b = restore (scan name (record { open_since = none; trips = 0 }) events) b

  scan-append :
      (name : String) (o : Openness) (es fs : List Event)
      → scan name o (es ++ fs) ≡ scan name (scan name o es) fs
  unfolding scan
  scan-append name o [] fs = refl
  scan-append name o (e ∷ es) fs = scan-append name (observe_row name o e) es fs

  -- A row that is neither a trip nor a reset of the breaker.
  abbrev pub Silent : String → Body → Type 0
  Silent name (breaker_tripped row) = str_eq row.breaker name ≡ false
  Silent name (breaker_reset row) = str_eq row.breaker name ≡ false
  Silent name _ = Unit

  abbrev pub AllSilent : String → List Event → Type 0
  AllSilent name [] = Unit
  AllSilent name (e ∷ es) = Silent name e.body × AllSilent name es

  observe_row-Silent :
      (name : String) (o : Openness) (e : Event) → Silent name e.body → observe_row name o e ≡ o
  unfolding observe_row
  observe_row-Silent name o e h = ground arith

  scan-AllSilent :
      (name : String) (o : Openness) (es : List Event) → AllSilent name es → scan name o es ≡ o
  unfolding scan
  scan-AllSilent name o [] h = refl
  scan-AllSilent name o (e ∷ es) h =
      rw (observe_row-Silent name o e h.0) (scan-AllSilent name o es h.1)

  observe_row-tripped :
      (name : String) (o : Openness) (e : Event) (row : BreakerTripped) (t : ℕ)
      → e.body ≡ breaker_tripped row
      → str_eq row.breaker name ≡ true
      → parse_ts_utc e.ts_utc ≡ some t
      → observe_row name o e ≡ record { open_since = some t; trips = o.trips + 1 }
  unfolding observe_row
  observe_row-tripped name o e row t body mine time = rw (body, mine, time)

  scan-cons :
      (name : String) (o : Openness) (e : Event) (fs : List Event)
      → scan name o (e ∷ fs) ≡ scan name (observe_row name o e) fs
  unfolding scan
  scan-cons name o e fs = refl

  -- A restart cannot bypass a cooldown: if the last trip or reset row of a breaker is a trip whose
  -- time reads as `t`, whatever rows stand before it, the rebuilt breaker is open and admits no
  -- probe at every time before the end of the cooldown counted from `t`.
  pub rebuild_cooldown :
      (name : String) (es fs : List Event) (e : Event) (row : BreakerTripped) (b : Breaker)
      (t now : ℕ)
      → e.body ≡ breaker_tripped row
      → str_eq row.breaker name ≡ true
      → parse_ts_utc e.ts_utc ≡ some t
      → AllSilent name fs
      → now < t + b.cooldown_s
      → let b' = rebuild name (es ++ e ∷ fs) b in
        (b'.opened_at ≡ some t) × ((is_open b' now).0 ≡ true) × ((admit_probe b' now).0 ≡ false)
  unfolding rebuild restore is_open admit_probe
  rebuild_cooldown name es fs e row b t now body mine time silent early =
      let before = scan name (record { open_since = none; trips = 0 }) es in
      rw (scan-append name (record { open_since = none; trips = 0 }) es (e ∷ fs)) (
        rw (scan-cons name before e fs) (
          rw (scan-AllSilent name (observe_row name before e) fs silent) (
            rw (observe_row-tripped name before e row t body mine time)
              (refl, ground arith, ground arith))))
