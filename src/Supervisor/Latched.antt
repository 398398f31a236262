-- ===== src/Supervisor/Latched.antt =====
-- A latched seat stays latched until a resume note written after its latch:
-- src/pumpgrok/supervisor/seat_restart.py.
use pump_grok.Prelude.{
  ℕ, Bool, true, false, ◌&&◌, ◌||◌, String, some, List, [], ◌∷◌, if◌then◌else◌, str_eq, eq_iff, ◌≡◌,
  refl, ◌⊎◌, inl, inr, Bool-cases, subst, ap, some-injective,
}
use pump_grok.Prelude.Dict.{lookup, lookup-insert}
use pump_grok.Supervisor.Restart.{
  Note, ObserveOnly, is_some, is_latched, latch, paper_write_allowed, resume_after, fold_resume,
}

-- What the supervisor does with its latches: a seat's budget is spent, or a tick folds the notes.
pub data LatchCall : Type 0 where
  seat_latched : String → String → ℕ → LatchCall
  notes_folded : List Note → LatchCall

-- A seat whose latch stops buys desk-wide.
abbrev pub gates_buys : String → Bool
gates_buys seat = str_eq seat "bot-04-sniper" || str_eq seat "bot-02-risk"

write-latched :
    (latched : ObserveOnly) (seat side : String)
    → is_some (lookup seat latched) ≡ true
    → paper_write_allowed latched seat side ≡ false
unfolding paper_write_allowed is_latched
write-latched latched seat side e = rw e refl

write-gate :
    (latched : ObserveOnly) (other : String)
    → is_some (lookup "bot-04-sniper" latched) || is_some (lookup "bot-02-risk" latched) ≡ true
    → paper_write_allowed latched other "buy" ≡ false
unfolding paper_write_allowed is_latched
write-gate latched other e = elim (Bool-cases (is_some (lookup other latched))) [
  | inl f ↦ rw f refl
  | inr f ↦ rw (f, e) refl
]

or-true : (a : Bool) → a || true ≡ true
or-true true = refl
or-true false = refl

write-gated :
    (latched : ObserveOnly) (seat other : String)
    → is_some (lookup seat latched) ≡ true
    → gates_buys seat && paper_write_allowed latched other "buy" ≡ false
write-gated latched seat other e = elim (Bool-cases (str_eq seat "bot-04-sniper")) [
  | inl f ↦
      let there =
        subst (λ k. is_some (lookup k latched) ≡ true) ((eq_iff seat "bot-04-sniper").0 f) e in
      rw (f, write-gate latched other (rw there refl)) refl
  | inr f ↦ elim (Bool-cases (str_eq seat "bot-02-risk")) [
    | inl g ↦
        let there =
          subst (λ k. is_some (lookup k latched) ≡ true) ((eq_iff seat "bot-02-risk").0 g) e in
        rw (f, g, write-gate latched other (rw there (or-true _))) refl
    | inr g ↦ rw (f, g) refl
  ]
]

module _ (is_resume : String → String → Bool) where
  unfoldable pub apply_call : ObserveOnly → LatchCall → ObserveOnly
  unfolding latch fold_resume
  apply_call latched (seat_latched seat reason after_seq) = latch latched seat reason after_seq
  apply_call latched (notes_folded notes) = (fold_resume is_resume latched notes).0

  unfoldable pub run_calls : ObserveOnly → List LatchCall → ObserveOnly
  unfolding apply_call
  run_calls latched [] = latched
  run_calls latched (c ∷ calls) = run_calls (apply_call latched c) calls

  -- No fold of the calls meets a resume note of the seat after `floor`.
  abbrev pub NotResumed : String → ℕ → List LatchCall → Type 0
  NotResumed seat floor [] = Unit
  NotResumed seat floor (seat_latched other reason after_seq ∷ calls) = NotResumed seat floor calls
  NotResumed seat floor (notes_folded notes ∷ calls) =
      (resume_after is_resume notes seat floor ≡ false) × NotResumed seat floor calls

  latch-lookup :
      (latched : ObserveOnly) (seat other reason : String) (after_seq : ℕ) (entry : String × ℕ)
      → lookup seat latched ≡ some entry
      → lookup seat (latch latched other reason after_seq) ≡ some entry
  unfolding latch is_latched
  latch-lookup latched seat other reason after_seq entry e =
      elim (Bool-cases (is_some (lookup other latched))) [
        | inl f ↦ rw f e
        | inr f ↦ rw (f, lookup-insert) (by_name (Bool-cases (str_eq other seat)) f)
      ]
    where
      by_name :
          (str_eq other seat ≡ true) ⊎ (str_eq other seat ≡ false)
          → is_some (lookup other latched) ≡ false
          → (if str_eq other seat then some (reason, after_seq) else lookup seat latched)
            ≡ some entry
      by_name (inr g) f = rw g e
      by_name (inl g) f =
          let same = (eq_iff other seat).0 g in
          let missing = subst (λ k. is_some (lookup k latched) ≡ false) same f in
          let stuck = rw e at missing in cc

  fold_resume-lookup :
      (latched : ObserveOnly) (notes : List Note) (seat reason : String) (floor : ℕ)
      → resume_after is_resume notes seat floor ≡ false
      → lookup seat latched ≡ some (reason, floor)
      → lookup seat (fold_resume is_resume latched notes).0 ≡ some (reason, floor)
  unfolding fold_resume lookup
  fold_resume-lookup [] notes seat reason floor h e = cc
  fold_resume-lookup ((other, (reason', floor')) ∷ latched) notes seat reason floor h e =
      elim (Bool-cases (str_eq other seat)) [
        | inl g ↦
            let same = (eq_iff other seat).0 g in
            let entry = some-injective (reason', floor') (reason, floor) (rw g at e) in
            let stays : resume_after is_resume notes other floor' ≡ false =
              rw (same, ap (λ x. x.1) entry) h in
            rw stays (rw g (ap some entry))
        | inr g ↦
            let next = fold_resume-lookup latched notes seat reason floor h (rw g at e) in
            elim (Bool-cases (resume_after is_resume notes other floor')) [
              | inl f ↦ rw f next
              | inr f ↦ rw f (rw g next)
            ]
      ]

  run_calls-lookup :
      (latched : ObserveOnly) (calls : List LatchCall) (seat reason : String) (floor : ℕ)
      → lookup seat latched ≡ some (reason, floor)
      → NotResumed seat floor calls
      → lookup seat (run_calls latched calls) ≡ some (reason, floor)
  unfolding run_calls apply_call
  run_calls-lookup latched [] seat reason floor e h = e
  run_calls-lookup latched (seat_latched other why after_seq ∷ calls) seat reason floor e h =
      run_calls-lookup (latch latched other why after_seq) calls seat reason floor
        (latch-lookup latched seat other why after_seq (reason, floor) e) h
  run_calls-lookup latched (notes_folded notes ∷ calls) seat reason floor e h =
      run_calls-lookup (fold_resume is_resume latched notes).0 calls seat reason floor
        (fold_resume-lookup latched notes seat reason floor h.0 e) h.1

  -- A seat that is latched keeps its first reason and sequence through any latches and folds of
  -- notes, as long as no fold meets a human resume note of that seat after that sequence: it resolves
  -- no paper write of either side, and if it is the sniper's or the risk seat, no seat buys.
  pub latched-holds :
      (latched : ObserveOnly) (calls : List LatchCall) (seat reason : String) (floor : ℕ)
      (other side : String)
      → lookup seat latched ≡ some (reason, floor)
      → NotResumed seat floor calls
      → (lookup seat (run_calls latched calls) ≡ some (reason, floor))
        × (paper_write_allowed (run_calls latched calls) seat side ≡ false)
        × (gates_buys seat && paper_write_allowed (run_calls latched calls) other "buy" ≡ false)
  latched-holds latched calls seat reason floor other side e h =
      let kept = run_calls-lookup latched calls seat reason floor e h in
      (
        kept,
        write-latched (run_calls latched calls) seat side (rw kept refl),
        write-gated (run_calls latched calls) seat other (rw kept refl),
      )
