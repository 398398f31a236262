-- ===== src/Ledger/Reconcile/Meta.antt =====
-- A fold neither reads nor writes the state's meta, where a snapshot keeps its hash.
use pump_grok.Prelude.{
  ℕ, String, Option, none, some, List, [], ◌∷◌, ◌++◌, ◌≡◌, refl, ◌∙◌, ap, inl, inr, Bool-cases,
  str_eq,
}
use pump_grok.Prelude.Int.{ltb_ℤ}
use pump_grok.Prelude.Dict.{Dict, lookup}
use pump_grok.Ledger.Events.{
  Event, Body, PositionOpened, FillRecorded, ApprovalRecorded, position_opened, position_closed,
  fill_recorded, mark_to_market, approval_recorded, unknown,
}
use pump_grok.Ledger.State.{LedgerState, PositionView, equity_lamports, track_peak}
use pump_grok.Ledger.Mark.{Prices, Result, ok, corrupt, ◌>>=◌, mark_all, on_mtm}
use pump_grok.Ledger.Fill.{on_position_opened, on_position_closed, filled, on_fill, on_rejected}
use pump_grok.Ledger.Reducer.{
  on_halt_set, on_halt_cleared, on_kill_set, on_kill_cleared, set_breaker, on_breaker_tripped,
  on_breaker_reset, on_rollover, on_approval, handle, stamp, reduce, fold,
}

abbrev pub with_meta : Dict String → LedgerState → LedgerState
with_meta m s = record s { meta = m }

abbrev lifted : Dict String → Result LedgerState → Result LedgerState
lifted m (ok s) = ok (with_meta m s)
lifted m corrupt = corrupt

track_peak-meta :
    (m : Dict String) (s : LedgerState) → track_peak (with_meta m s) ≡ with_meta m (track_peak s)
unfolding track_peak equity_lamports
track_peak-meta m s = elim (Bool-cases (ltb_ℤ s.peak_equity_lamports (equity_lamports s))) [
  | inl e ↦ rw e refl
  | inr e ↦ rw e refl
]

on_position_opened-meta :
    (m : Dict String) (s : LedgerState) (row : PositionOpened) (cid : String)
    → on_position_opened (with_meta m s) row cid ≡ with_meta m (on_position_opened s row cid)
unfolding on_position_opened
on_position_opened-meta m s row cid = elim (Bool-cases (str_eq row.mint "")) [
  | inl e ↦ rw e refl
  | inr e ↦ rw e (track_peak-meta m _)
]

filled-meta :
    (m : Dict String) (s : LedgerState) (row : FillRecorded) (p : Option PositionView)
    → filled (with_meta m s) row p ≡ with_meta m (filled s row p)
unfolding filled
filled-meta m s row none = refl
filled-meta m s row (some p) = refl

on_fill-meta :
    (m : Dict String) (s : LedgerState) (row : FillRecorded)
    → on_fill (with_meta m s) row ≡ with_meta m (on_fill s row)
unfolding on_fill
on_fill-meta m s row =
    ap track_peak (filled-meta m s row (lookup row.mint s.positions))
    ∙ track_peak-meta m (filled s row (lookup row.mint s.positions))

on_approval-meta :
    (m : Dict String) (s : LedgerState) (row : ApprovalRecorded)
    → on_approval (with_meta m s) row ≡ with_meta m (on_approval s row)
unfolding on_approval
on_approval-meta m s row = elim (Bool-cases (str_eq row.id "")) [
  | inl e ↦ rw e refl
  | inr e ↦ rw e refl
]

on_mtm-meta :
    (m : Dict String) (s : LedgerState) (prices : Prices) (ts : String)
    → on_mtm (with_meta m s) prices ts ≡ lifted m (on_mtm s prices ts)
unfolding on_mtm
on_mtm-meta m s prices ts = by_marks (mark_all ts prices s.positions)
  where
    by_marks :
        (r : Result (Dict PositionView))
        → r >>= (λ d. ok (track_peak (record s { positions = d; last_mtm_ts_utc = ts; meta = m })))
          ≡ lifted m (r >>= λ d. ok (track_peak (record s { positions = d; last_mtm_ts_utc = ts })))
    by_marks (ok d) = ap ok (track_peak-meta m (record s { positions = d; last_mtm_ts_utc = ts }))
    by_marks corrupt = refl

module _ (parse_prices : String → Prices) (m : Dict String) where
  handle-meta :
      (s : LedgerState) (b : Body) (ts cid : String)
      → handle parse_prices (with_meta m s) b ts cid ≡ lifted m (handle parse_prices s b ts cid)
  unfolding handle on_position_closed on_rejected on_halt_set on_halt_cleared on_kill_set
      on_kill_cleared set_breaker on_breaker_tripped on_breaker_reset on_rollover
  handle-meta s (position_opened row) ts cid = ap ok (on_position_opened-meta m s row cid)
  handle-meta s (position_closed row) ts cid = ap ok (track_peak-meta m _)
  handle-meta s (fill_recorded row) ts cid = ap ok (on_fill-meta m s row)
  handle-meta s (mark_to_market row) ts cid = on_mtm-meta m s (parse_prices row.prices_json) ts
  handle-meta s (approval_recorded row) ts cid = ap ok (on_approval-meta m s row)
  handle-meta s b ts cid = refl

  stamp-meta :
      (n : ℕ) (b : Body) (s : LedgerState)
      → stamp parse_prices n b (with_meta m s) ≡ with_meta m (stamp parse_prices n b s)
  unfolding stamp
  stamp-meta n (unknown type) s = refl
  stamp-meta n b s = refl

  reduce-meta :
      (s : LedgerState) (e : Event)
      → reduce parse_prices (with_meta m s) e ≡ lifted m (reduce parse_prices s e)
  unfolding reduce
  reduce-meta s e =
      ap (λ r. r >>= λ t. ok (stamp parse_prices e.seq e.body t))
        (handle-meta s e.body e.ts_utc e.correlation_id)
      ∙ by_handled (handle parse_prices s e.body e.ts_utc e.correlation_id)
    where
      by_handled :
          (r : Result LedgerState)
          → lifted m r >>= (λ t. ok (stamp parse_prices e.seq e.body t))
            ≡ lifted m (r >>= λ t. ok (stamp parse_prices e.seq e.body t))
      by_handled (ok t) = ap ok (stamp-meta e.seq e.body t)
      by_handled corrupt = refl

  fold-lifted :
      (s : LedgerState) (es : List Event)
      → fold parse_prices (with_meta m s) es ≡ lifted m (fold parse_prices s es)
  unfolding fold
  fold-lifted s [] = refl
  fold-lifted s (e ∷ es) =
      ap (λ r. r >>= λ t. fold parse_prices t es) (reduce-meta s e)
      ∙ by_reduced (reduce parse_prices s e) (λ t. fold-lifted t es)
    where
      by_reduced :
          (r : Result LedgerState)
          → ((t : LedgerState)
              → fold parse_prices (with_meta m t) es ≡ lifted m (fold parse_prices t es))
          → lifted m r >>= (λ t. fold parse_prices t es)
            ≡ lifted m (r >>= λ t. fold parse_prices t es)
      by_reduced (ok t) next = next t
      by_reduced corrupt next = refl

  pub fold-meta :
      (s t : LedgerState) (es : List Event)
      → fold parse_prices s es ≡ ok t
      → fold parse_prices (with_meta m s) es ≡ ok (with_meta m t)
  fold-meta s t es h = fold-lifted s es ∙ ap (lifted m) h

-- A fold of two lists is the second's on the first's.
pub fold-append :
    (parse_prices : String → Prices) (s t : LedgerState) (xs ys : List Event)
    → fold parse_prices s xs ≡ ok t
    → fold parse_prices s (xs ++ ys) ≡ fold parse_prices t ys
unfolding fold
fold-append parse_prices s t [] ys h = cc
fold-append parse_prices s t (x ∷ xs) ys h =
    by_step (reduce parse_prices s x) (λ u. fold-append parse_prices u t xs ys) h
  where
    by_step :
        (r : Result LedgerState)
        → ((u : LedgerState)
            → fold parse_prices u xs ≡ ok t
            → fold parse_prices u (xs ++ ys) ≡ fold parse_prices t ys)
        → r >>= (λ u. fold parse_prices u xs) ≡ ok t
        → r >>= (λ u. fold parse_prices u (xs ++ ys)) ≡ fold parse_prices t ys
    by_step (ok u) next h = next u h
    by_step corrupt next h = cc
