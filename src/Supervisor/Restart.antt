-- ===== src/Supervisor/Restart.antt =====
-- src/pumpgrok/supervisor/seat_restart.py: `RestartPolicy` and `ObserveOnly`.
use pump_grok.Prelude.{
  ℕ, ◌+◌, Bool, true, false, not, ◌&&◌, ◌||◌, String, Option, none, some, List, [], ◌∷◌, ◌++◌,
  if◌then◌else◌, str_eq, leb, ltb,
}
use pump_grok.Prelude.Lists.{length}
use pump_grok.Prelude.Dict.{Dict, lookup, insert}

-- Times are in one fixed unit.
pub record RestartPolicy : Type 0 where
  pub capacity : ℕ
  pub window : ℕ
  pub crashes : List ℕ

-- `[ts for ts in crashes if ts > now - window]`
unfoldable pub recent : ℕ → ℕ → List ℕ → List ℕ
recent window now [] = []
recent window now (ts ∷ rest) =
    let kept = recent window now rest in if ltb now (ts + window) then ts ∷ kept else kept

-- `_prune`
unfoldable pub prune : RestartPolicy → ℕ → RestartPolicy
unfolding recent
prune p now = record p { crashes = recent p.window now p.crashes }

-- `record_crash`: whether the seat may restart, and the policy.
unfoldable pub record_crash : RestartPolicy → ℕ → Bool × RestartPolicy
unfolding prune
record_crash p now =
    let q = prune p now in
    if leb q.capacity (length q.crashes)
    then (false, q)
    else (true, record q { crashes = q.crashes ++ now ∷ [] })

-- A journal note, as `fold_resume` reads it.
pub record Note : Type 0 where
  pub seq : ℕ
  pub note_kind : String
  pub seat : String
  pub text : String

-- The two dicts of `ObserveOnly`, which have the same keys, as one of pairs.
abbrev pub ObserveOnly : Type 0
ObserveOnly = Dict (String × ℕ)

abbrev pub is_some {ℓ} : {A : Type ℓ} → Option A → Bool
is_some none = false
is_some (some a) = true

unfoldable pub is_latched : ObserveOnly → String → Bool
unfolding lookup
is_latched latched seat = is_some (lookup seat latched)

unfoldable pub latch : ObserveOnly → String → String → ℕ → ObserveOnly
unfolding is_latched insert
latch latched seat reason after_seq =
    if is_latched latched seat then latched else insert seat (reason, after_seq) latched

-- Who may resolve paper-write tools.
unfoldable pub paper_write_allowed : ObserveOnly → String → String → Bool
unfolding is_latched
paper_write_allowed latched seat side =
    if is_latched latched seat
    then false
    else not (
        str_eq side "buy"
        && (is_latched latched "bot-04-sniper" || is_latched latched "bot-02-risk"))

-- `is_resume text seat` is `text.startswith(f"resume {seat} by human:")`.
module _ (is_resume : String → String → Bool) where
  unfoldable pub resume_after : List Note → String → ℕ → Bool
  resume_after [] seat floor = false
  resume_after (n ∷ notes) seat floor =
      (ltb floor n.seq && str_eq n.note_kind "note" && str_eq n.seat seat && is_resume n.text seat)
      || resume_after notes seat floor

  -- The loop of `fold_resume`: the latches that stay, and the seats that resume.
  unfoldable pub fold_resume : ObserveOnly → List Note → ObserveOnly × List String
  unfolding resume_after
  fold_resume [] notes = ([], [])
  fold_resume ((seat, (reason, floor)) ∷ latched) notes =
      let (kept, resumed) = fold_resume latched notes in
      if resume_after notes seat floor
      then (kept, seat ∷ resumed)
      else ((seat, (reason, floor)) ∷ kept, resumed)
