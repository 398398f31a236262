-- ===== src/Ledger/Reducer/Peak.antt =====
-- The high-water mark of equity.
use pump_grok.Prelude.{
  ℕ, String, ◌≡◌, refl, Option, none, some, List, [], ◌∷◌, inl, inr, Bool-cases, subst, str_eq,
  arith,
}
use pump_grok.Prelude.Int.{ℤ, pos, ◌≤ℤ◌, int_laws}
use pump_grok.Prelude.Dict.{lookup, total}
use pump_grok.Ledger.Events.{
  Event, Body, PositionOpened, position_opened, PositionClosed, position_closed, FillRecorded,
  OrderRejected, fill_recorded, order_rejected, mark_to_market, unknown,
}
use pump_grok.Ledger.State.{LedgerState, PositionView, equity_lamports, initial_state}
use pump_grok.Ledger.Mark.{Prices, ok, mark_all, on_mtm}
use pump_grok.Ledger.Fill.{on_position_opened, on_position_closed, filled, on_fill, on_rejected}
use pump_grok.Ledger.Reducer.{
  on_halt_set, on_halt_cleared, on_kill_set, on_kill_cleared, on_breaker_tripped, on_breaker_reset,
  on_rollover, on_approval, handle, stamp, reduce, fold,
}
use pump_grok.Ledger.Reducer.Frame.{
  track_peak-equity, equity-le-track_peak, peak-le-track_peak, ok-injective, >>=-eq-ok,
}

abbrev pub IsPeaked : LedgerState → Type 0
IsPeaked s = equity_lamports s ≤ℤ s.peak_equity_lamports

-- No rejection pays a fee back.
abbrev pub FeesCharged : Body → Type 0
FeesCharged (order_rejected row) = pos 0 ≤ℤ row.fees_lamports
FeesCharged _ = Unit

abbrev pub AllCharged : List Event → Type 0
AllCharged [] = Unit
AllCharged (e ∷ es) = FeesCharged e.body × AllCharged es

on_rejected-IsPeaked :
    (s : LedgerState) (row : OrderRejected)
    → pos 0 ≤ℤ row.fees_lamports
    → IsPeaked s
    → IsPeaked (on_rejected s row)
unfolding on_rejected equity_lamports
on_rejected-IsPeaked s row c h = omega int_laws

filled-peak :
    (s : LedgerState) (row : FillRecorded) (p : Option PositionView)
    → (filled s row p).peak_equity_lamports ≡ s.peak_equity_lamports
unfolding filled
filled-peak s row none = refl
filled-peak s row (some p) = refl

on_fill-peak :
    (s : LedgerState) (row : FillRecorded)
    → s.peak_equity_lamports ≤ℤ (on_fill s row).peak_equity_lamports
unfolding on_fill
on_fill-peak s row =
    let p = lookup row.mint s.positions in
    grind (arith, filled-peak s row p, peak-le-track_peak (filled s row p))

on_position_opened-peak :
    (s : LedgerState) (row : PositionOpened) (cid : String)
    → s.peak_equity_lamports ≤ℤ (on_position_opened s row cid).peak_equity_lamports
unfolding on_position_opened
on_position_opened-peak s row cid = elim (Bool-cases (str_eq row.mint "")) [
  | inl e ↦ rw e (omega arith)
  | inr e ↦ rw e (peak-le-track_peak _)
]

on_position_closed-peak :
    (s : LedgerState) (row : PositionClosed)
    → s.peak_equity_lamports ≤ℤ (on_position_closed s row).peak_equity_lamports
unfolding on_position_closed
on_position_closed-peak s row = peak-le-track_peak _

on_mtm-peak :
    (s t : LedgerState) (prices : Prices) (ts : String)
    → on_mtm s prices ts ≡ ok t
    → s.peak_equity_lamports ≤ℤ t.peak_equity_lamports
unfolding on_mtm
on_mtm-peak s t prices ts e =
    let (d, first, last) = >>=-eq-ok (mark_all ts prices s.positions) _ e in
    subst (λ x. s.peak_equity_lamports ≤ℤ x.peak_equity_lamports) (ok-injective _ t last)
      (peak-le-track_peak _)

module _ (parse_prices : String → Prices) where
  handle-IsPeaked :
      (s t : LedgerState) (b : Body) (ts cid : String)
      → FeesCharged b
      → IsPeaked s
      → handle parse_prices s b ts cid ≡ ok t
      → IsPeaked t
  unfolding handle on_position_opened on_position_closed on_fill on_mtm on_halt_set on_halt_cleared
      on_kill_set on_kill_cleared on_breaker_tripped on_breaker_reset on_rollover on_approval
      equity_lamports
  handle-IsPeaked s t (order_rejected row) ts cid c h e =
      grind (arith, on_rejected-IsPeaked s row c h)
  handle-IsPeaked s t b ts cid c h e = grind (arith, track_peak-equity, equity-le-track_peak)

  handle-peak :
      (s t : LedgerState) (b : Body) (ts cid : String)
      → handle parse_prices s b ts cid ≡ ok t
      → s.peak_equity_lamports ≤ℤ t.peak_equity_lamports
  unfolding handle on_rejected on_halt_set on_halt_cleared on_kill_set on_kill_cleared
      on_breaker_tripped on_breaker_reset on_rollover on_approval
  handle-peak s t (fill_recorded row) ts cid e = grind (arith, on_fill-peak s row)
  handle-peak s t (position_opened row) ts cid e = grind (arith, on_position_opened-peak s row cid)
  handle-peak s t (position_closed row) ts cid e = grind (arith, on_position_closed-peak s row)
  handle-peak s t (mark_to_market row) ts cid e =
      on_mtm-peak s t (parse_prices row.prices_json) ts e
  handle-peak s t b ts cid e = ground arith

  stamp-equity :
      (n : ℕ) (b : Body) (s : LedgerState)
      → equity_lamports (stamp parse_prices n b s) ≡ equity_lamports s
  unfolding stamp equity_lamports
  stamp-equity n (unknown type) s = refl
  stamp-equity n b s = refl

  stamp-peak :
      (n : ℕ) (b : Body) (s : LedgerState)
      → (stamp parse_prices n b s).peak_equity_lamports ≡ s.peak_equity_lamports
  unfolding stamp
  stamp-peak n (unknown type) s = refl
  stamp-peak n b s = refl

  reduce-IsPeaked :
      (s t : LedgerState) (e : Event)
      → FeesCharged e.body
      → IsPeaked s
      → reduce parse_prices s e ≡ ok t
      → IsPeaked t
  unfolding reduce
  reduce-IsPeaked s t e c h r =
      let (u, first, last) =
        >>=-eq-ok (handle parse_prices s e.body e.ts_utc e.correlation_id) _ r in
      grind (
        arith,
        handle-IsPeaked s u e.body e.ts_utc e.correlation_id c h first,
        stamp-equity e.seq e.body u,
        stamp-peak e.seq e.body u,
      )

  reduce-peak :
      (s t : LedgerState) (e : Event)
      → reduce parse_prices s e ≡ ok t
      → s.peak_equity_lamports ≤ℤ t.peak_equity_lamports
  unfolding reduce
  reduce-peak s t e r =
      let (u, first, last) =
        >>=-eq-ok (handle parse_prices s e.body e.ts_utc e.correlation_id) _ r in
      grind
        (arith, handle-peak s u e.body e.ts_utc e.correlation_id first, stamp-peak e.seq e.body u)

  fold-IsPeaked :
      (s t : LedgerState) (es : List Event)
      → AllCharged es
      → IsPeaked s
      → fold parse_prices s es ≡ ok t
      → IsPeaked t
  unfolding fold
  fold-IsPeaked s t [] c h r = grind arith
  fold-IsPeaked s t (e ∷ es) c h r =
      let (u, first, rest) = >>=-eq-ok (reduce parse_prices s e) _ r in
      fold-IsPeaked u t es c.1 (reduce-IsPeaked s u e c.0 h first) rest

  fold-peak :
      (s t : LedgerState) (es : List Event)
      → fold parse_prices s es ≡ ok t
      → s.peak_equity_lamports ≤ℤ t.peak_equity_lamports
  unfolding fold
  fold-peak s t [] r = grind arith
  fold-peak s t (e ∷ es) r =
      let (u, first, rest) = >>=-eq-ok (reduce parse_prices s e) _ r in
      omega (arith, reduce-peak s u e first, fold-peak u t es rest)

  -- From the genesis state, after any run of events that folds and whose rejections charge no
  -- negative fee, the peak is at least the equity of that moment and at least the initial equity.
  pub fold-genesis_peak :
      (source day : String) (initial : ℤ) (t : LedgerState) (es : List Event)
      → AllCharged es
      → fold parse_prices (initial_state source initial day) es ≡ ok t
      → (equity_lamports t ≤ℤ t.peak_equity_lamports) × (initial ≤ℤ t.peak_equity_lamports)
  unfolding initial_state
  fold-genesis_peak source day initial t es c r =
      (fold-IsPeaked _ t es c genesis r, fold-peak _ t es r)
    where
      genesis : IsPeaked (initial_state source initial day)
      genesis = unfold equity_lamports total in omega int_laws
