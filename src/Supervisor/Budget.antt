-- ===== src/Supervisor/Budget.antt =====
-- What bounds a seat's restarts, and what lifts its latch: src/pumpgrok/supervisor/seat_restart.py.
use pump_grok.Prelude.{
  ℕ, ◌≤◌, List, [], ◌∷◌, ◌++◌, if◌then◌else◌, leb, ◌≡◌, refl, ◌∙◌, inl, inr, Bool-cases, sym, ap,
  arith,
}
use pump_grok.Prelude.Lists.{length, length-append}
use pump_grok.Supervisor.Restart.{RestartPolicy, recent, prune, record_crash}

-- Crashes in order, each at its time: the policy that they leave, and the times of the restarts
-- that it granted.
unfoldable pub run_crashes : RestartPolicy → List ℕ → RestartPolicy × List ℕ
unfolding record_crash
run_crashes p [] = (p, [])
run_crashes p (now ∷ times) =
    let (granted, q) = record_crash p now in
    let (last, more) = run_crashes q times in if granted then (last, now ∷ more) else (last, more)

-- Times that do not go back.
abbrev pub IsOrdered : ℕ → List ℕ → Type 0
IsOrdered start [] = Unit
IsOrdered start (now ∷ times) = (start ≤ now) × IsOrdered now times

recent-length : (w now : ℕ) (xs : List ℕ) → length (recent w now xs) ≤ length xs
unfolding recent
recent-length w now [] = omega arith
recent-length w now (x ∷ xs) = ground (arith, recent-length w now xs)

recent-append :
    (w now : ℕ) (xs ys : List ℕ) → recent w now (xs ++ ys) ≡ recent w now xs ++ recent w now ys
unfolding recent
recent-append w now [] ys = refl
recent-append w now (x ∷ xs) ys = rw (recent-append w now xs ys) (ground arith)

-- A later pruning forgets an earlier one.
recent_twice :
    (w early late : ℕ) (xs : List ℕ)
    → early ≤ late
    → recent w late (recent w early xs) ≡ recent w late xs
unfolding recent
recent_twice w early late [] h = refl
recent_twice w early late (x ∷ xs) h = ground (arith, recent_twice w early late xs h)

-- The latest of the times.
abbrev pub last_time : ℕ → List ℕ → ℕ
last_time start [] = start
last_time start (now ∷ times) = last_time now times

ordered-last : (start : ℕ) (times : List ℕ) → IsOrdered start times → start ≤ last_time start times
ordered-last start [] h = omega arith
ordered-last start (now ∷ times) h = omega (arith, h.0, ordered-last now times h.1)

append_assoc : (xs ys zs : List ℕ) → (xs ++ ys) ++ zs ≡ xs ++ (ys ++ zs)
append_assoc [] ys zs = refl
append_assoc (x ∷ xs) ys zs = ap (λ l. x ∷ l) (append_assoc xs ys zs)

-- What pruning has dropped by `early` counts no more at `late`.
recent-prune :
    (w early late : ℕ) (xs ys : List ℕ)
    → early ≤ late
    → recent w late (recent w early xs ++ ys) ≡ recent w late (xs ++ ys)
recent-prune w early late xs ys h =
    recent-append w late (recent w early xs) ys
    ∙ ap (λ l. l ++ recent w late ys) (recent_twice w early late xs h)
    ∙ sym (recent-append w late xs ys)

-- The crashes that a policy keeps count as many as the restarts that it granted.
abbrev Counts : RestartPolicy → RestartPolicy × List ℕ → ℕ → Type 0
Counts p (last, granted) now =
    (recent p.window now last.crashes ≡ recent p.window now (p.crashes ++ granted))
    × (length last.crashes ≤ p.capacity)

append_nil : (xs : List ℕ) → xs ++ [] ≡ xs
append_nil [] = refl
append_nil (x ∷ xs) = ap (λ l. x ∷ l) (append_nil xs)

run_crashes-Counts :
    (p : RestartPolicy) (start : ℕ) (times : List ℕ) (now : ℕ)
    → IsOrdered start times
    → last_time start times ≤ now
    → length p.crashes ≤ p.capacity
    → Counts p (run_crashes p times) now
unfolding run_crashes record_crash prune
run_crashes-Counts p start [] now h le room =
    (ap (recent p.window now) (sym (append_nil p.crashes)), room)
run_crashes-Counts p start (t ∷ times) now h le room =
    let early : t ≤ now = omega (arith, ordered-last t times h.1, le) in
    let kept = recent p.window t p.crashes in
    elim (Bool-cases (leb p.capacity (length kept))) [
      | inl full ↦
          let q = record p { crashes = kept } in
          let (same, small) =
            run_crashes-Counts q t times now h.1 le
              (omega (arith, recent-length p.window t p.crashes, room)) in
          rw full
            (same ∙ recent-prune p.window t now p.crashes (run_crashes q times).1 early, small)
      | inr free ↦
          let q = record p { crashes = kept ++ t ∷ [] } in
          let more = (run_crashes q times).1 in
          let (same, small) =
            run_crashes-Counts q t times now h.1 le (ground (arith, length-append kept (t ∷ []))) in
          rw free (
            same
                ∙ ap (recent p.window now) (append_assoc kept (t ∷ []) more)
                ∙ recent-prune p.window t now p.crashes (t ∷ more) early,
            small,
          )
    ]

-- A new policy grants at most its capacity of restarts in any window: of the restarts that a run of
-- crashes was granted, those within the window before `now` are at most `capacity`, at any time
-- from the last crash on.
pub run_crashes-budget :
    (capacity window start : ℕ) (times : List ℕ) (now : ℕ)
    → IsOrdered start times
    → last_time start times ≤ now
    → length (
        recent window now
          (run_crashes (record { capacity = capacity; window = window; crashes = [] }) times).1)
      ≤ capacity
run_crashes-budget capacity window start times now h le =
    let p : RestartPolicy = record { capacity = capacity; window = window; crashes = [] } in
    let (same, small) = run_crashes-Counts p start times now h le (omega arith) in
    let last = (run_crashes p times).0.crashes in
    omega (arith, ap length same, recent-length window now last, small)
