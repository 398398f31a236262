-- ===== src/Risk/KillSwitch/Restart.antt =====
-- The row that keeps an engagement over a restart: `observe` of src/pumpgrok/risk/killswitch.py.
use pump_grok.Prelude.{
  ℕ, Bool, true, false, not, ◌||◌, String, Option, none, some, List, [], ◌∷◌, ◌++◌, ◌≡◌, refl, sym,
  ◌∙◌, ◌⊎◌, inl, inr, Bool-cases, eq_iff, ◌==◌, arith,
}
use pump_grok.Ledger.Events.{EventSource, KillSwitchSet, kill_switch_set}
use pump_grok.Risk.KillSwitch.Model.{
  TextOps, Switch, KillState, Logged, latest_from, latest_set, clear_epoch,
}
use pump_grok.Risk.KillSwitch.Alerts.{is_there}
use pump_grok.Risk.KillSwitch.Poll.{poll}
use pump_grok.Risk.KillSwitch.Clear.{Hashing, key_taken, covers, set_row, observe_state, observe}
use pump_grok.Risk.KillSwitch.FailClosed.{is_forced, poll-active}
use pump_grok.Risk.KillSwitch.Cleared.{latest_from-append, or-true}
use pump_grok.Risk.KillSwitch.Epochs.{
  kill_switch_key-epoch, clear_epoch-snoc, key_taken-snoc, key_at, text_at, Reach, start, observes,
  appends, AreSets, appends-AreSets,
}

or-cases : (a b : Bool) → a || b ≡ true → (a ≡ true) ⊎ (b ≡ true)
or-cases true b h = inl refl
or-cases false b h = inr h

or-false : (a b : Bool) → a || b ≡ false → (a ≡ false) × (b ≡ false)
or-false true b h = cc
or-false false b h = (refl, h)

not-false : (a : Bool) → not a ≡ false → a ≡ true
not-false true h = refl
not-false false h = cc

same-of : (m n : ℕ) → m == n ≡ true → m ≡ n
same-of m n h = ground arith

same_self : (n : ℕ) → n == n ≡ true
same_self n = ground arith

covered :
    (row : Option KillSwitchSet) (flatten : Bool) → covers row flatten ≡ true → is_there row ≡ true
covered none flatten e = cc
covered (some row) flatten e = refl

module _ (h : Hashing) (state : KillState) (day_utc : String)
    (decimal : (i j : ℕ) → h.decimal i ≡ h.decimal j → i ≡ j)
    (apart : (i j : ℕ)
      → key_at h state day_utc i ≡ key_at h state day_utc j
      → text_at h state day_utc i ≡ text_at h state day_utc j) where
  observes-AreSets :
      (o : TextOps) (source : EventSource) (read rows : List Logged)
      → AreSets h state day_utc rows
      → AreSets h state day_utc (observe_state o h state day_utc source read rows)
  unfolding observe_state latest_set latest_from
  observes-AreSets o source read rows w =
      let key = key_at h state day_utc (clear_epoch read) in
      elim (Bool-cases (
        not state.active
        || covers (latest_set rows) state.flatten_requested
        || not (clear_epoch rows == clear_epoch read)
        || key_taken key rows)) [
          | inl kept ↦ rw (observe_state, kept) w
          | inr wrote ↦
              let (early, fresh) =
                or-false
                  (not state.active
                    || covers (latest_set rows) state.flatten_requested
                    || not (clear_epoch rows == clear_epoch read))
                  (key_taken key rows) wrote in
              let (idle, epoch) =
                or-false (not state.active || covers (latest_set rows) state.flatten_requested)
                  (not (clear_epoch rows == clear_epoch read)) early in
              rw (observe_state, wrote) (grown (same-of _ _ (not-false _ epoch)))
        ]
    where
      grown :
          clear_epoch rows ≡ clear_epoch read
          → AreSets h state day_utc (
              rows
              ++ (
                key_at h state day_utc (clear_epoch read),
                kill_switch_set (set_row o h source state),
              )
                ∷ [])
      grown same n taken =
          let key = key_at h state day_utc (clear_epoch read) in
          let body = kill_switch_set (set_row o h source state) in
          rw (clear_epoch-snoc rows key body, latest_from-append none rows ((key, body) ∷ []))
            (
              elim (or-cases _ _
                  (sym (key_taken-snoc (key_at h state day_utc n) rows key body) ∙ taken)) [
                    | inl before ↦ (w n before).0
                    | inr now ↦
                        let at_epoch =
                          kill_switch_key-epoch h state.source state.reason day_utc
                            state.flatten_requested (clear_epoch read) n decimal apart
                            ((eq_iff key (key_at h state day_utc n)).0 now) in
                        omega (arith, at_epoch, same)
                  ],
              λ e. refl,
            )

  Reach-AreSets : {rows : List Logged} → Reach h state day_utc rows → AreSets h state day_utc rows
  unfolding key_taken
  Reach-AreSets start = λ n taken. cc
  Reach-AreSets (observes {rows} o source read reach) =
      observes-AreSets o source read rows (Reach-AreSets reach)
  Reach-AreSets (appends {rows} k body other reach) =
      appends-AreSets h state day_utc rows k body other (Reach-AreSets reach)

  observed-latest :
      (o : TextOps) (source : EventSource) (rows : List Logged)
      → state.active ≡ true
      → AreSets h state day_utc rows
      → is_there (latest_set (observe_state o h state day_utc source rows rows)) ≡ true
  unfolding observe_state latest_set latest_from
  observed-latest o source rows on w =
      let key = key_at h state day_utc (clear_epoch rows) in
      elim (Bool-cases (covers (latest_set rows) state.flatten_requested)) [
        | inl e ↦ rw (on, e) (covered (latest_set rows) state.flatten_requested e)
        | inr e ↦ elim (Bool-cases (key_taken key rows)) [
          | inl taken ↦
              rw (on, e, same_self (clear_epoch rows), taken) ((w (clear_epoch rows) taken).1 refl)
          | inr fresh ↦
              rw (on, e, same_self (clear_epoch rows), fresh)
                (rw
                  (latest_from-append none rows
                    ((key, kill_switch_set (set_row o h source state)) ∷ []))
                  refl)
        ]
      ]

-- Once the engine has observed an active switch, with no row between its read of the ledger and its
-- write, the ledger engages any switch: one that starts again without the variable, the latch file
-- or the waiting line that set the first is still active. It holds on every ledger that observations
-- of this engagement and rows of other keys lead to, clears among them: also when an engagement that
-- was cleared comes back on the same day for the same reason. The conditions are that SHA-256 does
-- not collide on this engagement's texts, and that no two numbers have one decimal text.
pub observe-restart :
    (o : TextOps) (h : Hashing) (k restarted : Switch) (day_utc : String) (source : EventSource)
    (rows : List Logged)
    → ((i j : ℕ) → h.decimal i ≡ h.decimal j → i ≡ j)
    → ((i j : ℕ)
        → key_at h (poll o k rows).0 day_utc i ≡ key_at h (poll o k rows).0 day_utc j
        → text_at h (poll o k rows).0 day_utc i ≡ text_at h (poll o k rows).0 day_utc j)
    → Reach h (poll o k rows).0 day_utc rows
    → (poll o k rows).0.active ≡ true
    → (poll o restarted (observe o h k day_utc source rows rows)).0.active ≡ true
unfolding observe
observe-restart o h k restarted day_utc source rows decimal apart reach on =
    let engaged =
      observed-latest h (poll o k rows).0 day_utc decimal apart o source rows on
        (Reach-AreSets h (poll o k rows).0 day_utc decimal apart reach) in
    rw (poll-active o restarted (observe o h k day_utc source rows rows), engaged)
      (or-true (is_forced o restarted))
