-- ===== src/Ledger/Reconcile/Replay.antt =====
-- A restart from a snapshot reaches the state of the whole ledger.
use package.text.Mathlib.TextPositions.{eq_refl}
use pump_grok.Prelude.{
  ℕ, suc, ◌≤◌, Bool, true, false, String, Option, none, some, List, [], ◌∷◌, ◌++◌, ◌≡◌, refl, ◌∙◌,
  sym, ap, subst, if◌then◌else◌, arith,
}
use pump_grok.Prelude.Lists.{length}
use pump_grok.Prelude.Int.{ℤ, pos, ◌+ℤ◌, ◌-ℤ◌, int_laws, pos_part, neg_part}
use pump_grok.Prelude.Dict.{Dict}
use pump_grok.Ledger.Events.{Event, Body, fill_recorded, order_rejected}
use pump_grok.Ledger.State.{LedgerState, initial_state}
use pump_grok.Ledger.Mark.{Prices, ok, ◌>>=◌, or_default}
use pump_grok.Ledger.Reducer.{fold}
use pump_grok.Ledger.Reducer.Cash.{cash_delta, cash_flow, fold-cash}
use pump_grok.Core.Order.{eqb_ℤ}
use pump_grok.Ledger.Reconcile.{
  Stored, Snapshot, Restart, genesis, read_since, events_of, fill_deltas, rejected_fees, check_cash,
  check_snapshot, check_source, check_positions, check_full_replay, first_failure, integrity_checks,
  report_of, without_meta, snapshot_seq, base_state, checked, reconcile,
}
use pump_grok.Ledger.Reconcile.Meta.{with_meta, fold-meta, fold-append}

abbrev pub AllUpTo : ℕ → List Stored → Type 0
AllUpTo n [] = Unit
AllUpTo n (e ∷ es) = (e.event.seq ≤ n) × AllUpTo n es

abbrev pub AllAfter : ℕ → List Stored → Type 0
AllAfter n [] = Unit
AllAfter n (e ∷ es) = (suc n ≤ e.event.seq) × AllAfter n es

read_since-after : (n : ℕ) (es : List Stored) → AllAfter n es → read_since (suc n) es ≡ es
unfolding read_since
read_since-after n [] h = refl
read_since-after n (e ∷ es) h = rw (read_since-after n es h.1) (ground arith)

read_since-append :
    (n : ℕ) (before after : List Stored)
    → AllUpTo n before
    → AllAfter n after
    → read_since (suc n) (before ++ after) ≡ after
unfolding read_since
read_since-append n [] after h k = read_since-after n after k
read_since-append n (e ∷ es) after h k = rw (read_since-append n es after h.1 k) (ground arith)

events_of-append : (xs ys : List Stored) → events_of (xs ++ ys) ≡ events_of xs ++ events_of ys
events_of-append [] ys = refl
events_of-append (x ∷ xs) ys = ap (λ es. x.event ∷ es) (events_of-append xs ys)

-- The check's sums are the events' cash flow.
delta-split :
    (b : Body)
    → cash_delta b
      ≡ (elim b [ fill_recorded row ↦ row.cash_delta_lamports | _ ↦ pos 0 ])
        -ℤ (elim b [ order_rejected row ↦ row.fees_lamports | _ ↦ pos 0 ])
delta-split (fill_recorded row) = omega int_laws
delta-split (order_rejected row) = omega int_laws
delta-split b = omega int_laws

cash_flow-split : (es : List Event) → cash_flow es ≡ fill_deltas es -ℤ rejected_fees es
unfolding fill_deltas rejected_fees
cash_flow-split [] = omega int_laws
cash_flow-split (e ∷ es) =
    let head = delta-split e.body in
    let tail = cash_flow-split es in
    omega (int_laws, ap pos_part head, ap neg_part head, ap pos_part tail, ap neg_part tail)

if-true {ℓ} : {A : Type ℓ} (b : Bool) (x y : A) → b ≡ true → (if b then x else y) ≡ x
if-true true x y e = refl
if-true false x y e = cc

eqb_self : (a : ℤ) → eqb_ℤ a a ≡ true
eqb_self a = ground arith

genesis-cash :
    (r : Restart) (rows : List Stored)
    → (genesis r rows).cash_lamports ≡ or_default r.meta_equity (pos 0)
unfolding genesis initial_state
genesis-cash r [] = refl
genesis-cash r (e ∷ es) = refl

module _ (parse_prices : String → Prices) where
  -- A state of the whole fold passes the cash check.
  check_cash-fold :
      (r : Restart) (t : LedgerState) (m : Dict String)
      → fold parse_prices (genesis r r.rows) (events_of r.rows) ≡ ok t
      → check_cash r (with_meta m t) (events_of r.rows) ≡ none
  unfolding check_cash
  check_cash-fold r t m h =
      let es = events_of r.rows in
      let initial = or_default r.meta_equity (pos 0) in
      let cash = fold-cash parse_prices (genesis r r.rows) t es h in
      let split = cash_flow-split es in
      let start = genesis-cash r r.rows in
      let same : t.cash_lamports ≡ initial +ℤ fill_deltas es -ℤ rejected_fees es =
        rw (cash, start, split) (omega int_laws) in
      rw (same, eqb_self (initial +ℤ fill_deltas es -ℤ rejected_fees es)) refl

  -- The snapshot is the fold of the rows up to its `seq`, but for the meta that it carries.
  abbrev pub IsHonest : Restart → Option Snapshot → Type 0
  IsHonest r none = AllAfter 0 r.rows
  IsHonest r (some snap) =
      (before : List Stored) × (after : List Stored) × (r.rows ≡ before ++ after)
      × AllUpTo snap.seq before
      × AllAfter snap.seq after
      × (s : LedgerState) × (m : Dict String) × (fold parse_prices (genesis r r.rows)
            (events_of before)
          ≡ ok s)
      × (snap.state ≡ with_meta m s)

  module _ (dump : LedgerState → String) where
    -- The replay of the tail ends where the replay of every row does.
    tail_replay :
        (r : Restart) (o : Option Snapshot) (t : LedgerState)
        → IsHonest r o
        → fold parse_prices (genesis r r.rows) (events_of r.rows) ≡ ok t
        → (m : Dict String) × (fold parse_prices
              (base_state r o)
              (events_of (read_since (suc (snapshot_seq o)) r.rows))
            ≡ ok (with_meta m t))
    unfolding base_state
    tail_replay r none t honest h = (t.meta, rw (read_since-after 0 r.rows honest) h)
    tail_replay r (some snap) t (before, after, split, upto, above, s, m, folded, is) h =
        let whole =
          subst (λ rows. fold parse_prices (genesis r r.rows) (events_of rows) ≡ ok t) split h in
        let rest =
          sym (
            fold-append parse_prices (genesis r r.rows) s (events_of before) (events_of after)
              folded)
          ∙ subst (λ es. fold parse_prices (genesis r r.rows) es ≡ ok t)
              (events_of-append before after) whole in
        (
          m,
          rw (split, read_since-append snap.seq before after upto above, is)
              (fold-meta parse_prices m s t (events_of after) rest),
        )

    checked_filled :
        (r : Restart) (rows : List Stored) (s full : LedgerState)
        → 1 ≤ length rows
        → fold parse_prices (genesis r rows) (events_of rows) ≡ ok full
        → checked parse_prices dump r rows s
          ≡ ok (
              report_of
                (snapshot_seq r.snapshot)
                (length (read_since (suc (snapshot_seq r.snapshot)) rows))
                s
                (integrity_checks parse_prices dump r s full))
    unfolding checked
    checked_filled r [] s full some_rows h = absurd (omega arith)
    checked_filled r (e ∷ es) s full some_rows h = rw h refl

    integrity_checks-fold :
        (r : Restart) (t : LedgerState) (m : Dict String)
        → fold parse_prices (genesis r r.rows) (events_of r.rows) ≡ ok t
        → integrity_checks parse_prices dump r (with_meta m t) t
          ≡ first_failure (
              check_snapshot r r.snapshot
              ∷ check_source r r.meta_source
              ∷ check_positions (with_meta m t) (events_of r.rows)
              ∷ [])
    unfolding integrity_checks check_full_replay first_failure
    integrity_checks-fold r t m h =
        rw (eq_refl (dump (without_meta t)), check_cash-fold r t m h) refl

    -- A verified ledger that has rows, which all fold, restarts from its snapshot, if it has one that
    -- is the fold of the rows up to it, in the state of the whole fold, but for the meta. The replay
    -- check and the cash check never raise a false alarm: the report is consistent unless the
    -- snapshot's hash, the sources or the positions differ.
    pub reconcile-replay :
        (r : Restart) (t : LedgerState)
        → r.is_verified ≡ true
        → 1 ≤ length r.rows
        → IsHonest r r.snapshot
        → fold parse_prices (genesis r r.rows) (events_of r.rows) ≡ ok t
        → (m : Dict String) × (reconcile parse_prices dump r
            ≡ ok (
                report_of
                  (snapshot_seq r.snapshot)
                  (length (read_since (suc (snapshot_seq r.snapshot)) r.rows))
                  (with_meta m t)
                  (first_failure (
                    check_snapshot r r.snapshot
                    ∷ check_source r r.meta_source
                    ∷ check_positions (with_meta m t) (events_of r.rows)
                    ∷ []))))
    unfolding reconcile
    reconcile-replay r t verified some_rows honest h =
        let (m, replayed) = tail_replay r r.snapshot t honest h in
        let n = snapshot_seq r.snapshot in
        let k = length (read_since (suc n) r.rows) in
        (
          m,
          if-true r.is_verified _ _ verified
              ∙ ap (λ x. x >>= λ s. checked parse_prices dump r r.rows s) replayed
              ∙ checked_filled r r.rows (with_meta m t) t some_rows h
              ∙ ap (λ c. ok (report_of n k (with_meta m t) c)) (integrity_checks-fold r t m h),
        )
