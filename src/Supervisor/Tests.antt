-- ===== src/Supervisor/Tests.antt =====
-- The restart budget on six crashes of one hour, and a latch of the sniper.
use pump_grok.Prelude.{
  ℕ, ◌≤◌, Bool, true, false, ◌&&◌, String, some, List, [], ◌∷◌, ◌≡◌, refl, arith,
}
use pump_grok.Prelude.Lists.{length}
use pump_grok.Prelude.Dict.{lookup}
use pump_grok.Supervisor.Restart.{recent, Note, ObserveOnly, paper_write_allowed, resume_after}
use pump_grok.Supervisor.Budget.{run_crashes, run_crashes-budget}
use pump_grok.Supervisor.Latched.{
  LatchCall, seat_latched, notes_folded, run_calls, gates_buys, latched-holds,
}

abbrev crash_times : List ℕ
crash_times = 0 ∷ 60 ∷ 120 ∷ 180 ∷ 240 ∷ 300 ∷ 4_000 ∷ []

run_crashes-budget_example :
    length (
      recent 3_600 4_000
        (run_crashes (record { capacity = 5; window = 3_600; crashes = [] }) crash_times).1)
    ≤ 5
run_crashes-budget_example =
    run_crashes-budget 5 3_600 0 crash_times 4_000 (omega arith) (omega arith)

abbrev resumes : String → String → Bool
resumes text seat = true

abbrev sniper_latched : ObserveOnly
sniper_latched = ("bot-04-sniper", ("restart budget exhausted", 7)) ∷ []

-- A resume note of the sniper from before its latch, and a note of another seat.
abbrev old_notes : List Note
old_notes =
    record { seq = 3; note_kind = "note"; seat = "bot-04-sniper"; text = "resume" }
    ∷ record { seq = 9; note_kind = "note"; seat = "bot-02-risk"; text = "resume" }
    ∷ []

abbrev calls : List LatchCall
calls = seat_latched "bot-04-sniper" "again" 12 ∷ notes_folded old_notes ∷ []

latched-holds_example :
    (lookup "bot-04-sniper" (run_calls resumes sniper_latched calls)
      ≡ some ("restart budget exhausted", 7))
    × (paper_write_allowed (run_calls resumes sniper_latched calls) "bot-04-sniper" "sell" ≡ false)
    × (gates_buys "bot-04-sniper"
          && paper_write_allowed (run_calls resumes sniper_latched calls) "bot-03-exit" "buy"
        ≡ false)
latched-holds_example =
    latched-holds resumes sniper_latched calls "bot-04-sniper" "restart budget exhausted" 7
      "bot-03-exit" "sell" (unfold lookup in refl) (unfold resume_after in refl, tt)
