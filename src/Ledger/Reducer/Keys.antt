-- ===== src/Ledger/Reducer/Keys.antt =====
-- Every position stands under its own mint.
use pump_grok.Prelude.{
  ℕ, String, ◌≡◌, refl, Option, none, some, List, [], ◌∷◌, inl, inr, Bool-cases, Option-cases,
  subst, str_eq, arith,
}
use pump_grok.Prelude.Int.{ℤ}
use pump_grok.Prelude.Dict.{
  Dict, AllEntries, lookup, insert-AllEntries, erase-AllEntries, lookup-AllEntries,
}
use pump_grok.Ledger.Events.{
  Event, Body, FillRecorded, PositionOpened, PositionClosed, ApprovalRecorded, approval_recorded,
  fill_recorded, position_opened, position_closed, mark_to_market, unknown,
}
use pump_grok.Ledger.State.{LedgerState, PositionView, initial_state, track_peak}
use pump_grok.Ledger.Mark.{Prices, Mark, ok, marked_peak, marked, mark_one, mark_all, on_mtm}
use pump_grok.Ledger.Fill.{
  on_position_opened, on_position_closed, bought, sold, fill_position, on_fill, on_rejected,
}
use pump_grok.Ledger.Reducer.{
  on_halt_set, on_halt_cleared, on_kill_set, on_kill_cleared, on_breaker_tripped, on_breaker_reset,
  on_rollover, on_approval, handle, stamp, reduce, fold,
}
use pump_grok.Ledger.Reducer.Frame.{track_peak-positions, ok-injective, >>=-eq-ok, fold_induction}

abbrev HasMint : String → PositionView → Type 0
HasMint k p = p.mint ≡ k

abbrev pub IsKeyed : Dict PositionView → Type 0
IsKeyed d = AllEntries HasMint d

track_peak-IsKeyed : (s : LedgerState) → IsKeyed s.positions → IsKeyed (track_peak s).positions
track_peak-IsKeyed s h = rw track_peak-positions h

on_position_opened-IsKeyed :
    (s : LedgerState) (row : PositionOpened) (cid : String)
    → IsKeyed s.positions
    → IsKeyed (on_position_opened s row cid).positions
unfolding on_position_opened
on_position_opened-IsKeyed s row cid h = elim (Bool-cases (str_eq row.mint "")) [
  | inl e ↦ rw e h
  | inr e ↦ rw (e, track_peak-positions) (insert-AllEntries HasMint row.mint _ s.positions refl h)
]

on_position_closed-IsKeyed :
    (s : LedgerState) (row : PositionClosed)
    → IsKeyed s.positions
    → IsKeyed (on_position_closed s row).positions
unfolding on_position_closed
on_position_closed-IsKeyed s row h =
    rw track_peak-positions (erase-AllEntries HasMint row.mint s.positions h)

fill_position-mint : (row : FillRecorded) (p : PositionView) → (fill_position row p).mint ≡ p.mint
unfolding fill_position bought sold
fill_position-mint row p = ground arith

on_fill-IsKeyed :
    (s : LedgerState) (row : FillRecorded) → IsKeyed s.positions → IsKeyed (on_fill s row).positions
unfolding on_fill
on_fill-IsKeyed s row h = elim (Option-cases (lookup row.mint s.positions)) [
  | inl e ↦ rw (track_peak-positions, e) h
  | inr (p, e) ↦
      rw (track_peak-positions, e)
        (insert-AllEntries HasMint row.mint (fill_position row p) s.positions
          (cc (fill_position-mint row p, lookup-AllEntries HasMint row.mint p s.positions h e)) h)
]

on_approval-IsKeyed :
    (s : LedgerState) (row : ApprovalRecorded)
    → IsKeyed s.positions
    → IsKeyed (on_approval s row).positions
unfolding on_approval
on_approval-IsKeyed s row h = ground arith

mark_one-IsKeyed :
    (ts mint : String) (m : Mark) (d d' : Dict PositionView) (o : Option PositionView)
    → IsKeyed d
    → lookup mint d ≡ o
    → mark_one ts mint m o d ≡ ok d'
    → IsKeyed d'
unfolding mark_one marked
mark_one-IsKeyed ts mint m d d' none h e r = subst IsKeyed (ok-injective d d' r) h
mark_one-IsKeyed ts mint m d d' (some p) h e r = elim (Bool-cases p.mtm_frozen) [
  | inl f ↦ subst IsKeyed (ok-injective d d' (rw f at r)) h
  | inr f ↦
      let (peak, _, last) = >>=-eq-ok (marked_peak p.price_peak m.spot) _ (rw f at r) in
      subst IsKeyed (ok-injective _ d' last)
        (insert-AllEntries HasMint mint _ d (lookup-AllEntries HasMint mint p d h e) h)
]

mark_all-IsKeyed :
    (ts : String) (prices : Prices) (d d' : Dict PositionView)
    → IsKeyed d
    → mark_all ts prices d ≡ ok d'
    → IsKeyed d'
unfolding mark_all
mark_all-IsKeyed ts [] d d' h r = subst IsKeyed (ok-injective d d' r) h
mark_all-IsKeyed ts ((mint, none) ∷ prices) d d' h r = mark_all-IsKeyed ts prices d d' h r
mark_all-IsKeyed ts ((mint, some m) ∷ prices) d d' h r =
    let (u, first, rest) = >>=-eq-ok (mark_one ts mint m (lookup mint d) d) _ r in
    mark_all-IsKeyed ts prices u d' (mark_one-IsKeyed ts mint m d u (lookup mint d) h refl first)
      rest

on_mtm-IsKeyed :
    (s t : LedgerState) (prices : Prices) (ts : String)
    → IsKeyed s.positions
    → on_mtm s prices ts ≡ ok t
    → IsKeyed t.positions
unfolding on_mtm
on_mtm-IsKeyed s t prices ts h r =
    let (d, first, last) = >>=-eq-ok (mark_all ts prices s.positions) _ r in
    subst (λ x. IsKeyed x.positions) (ok-injective _ t last)
      (rw track_peak-positions (mark_all-IsKeyed ts prices s.positions d h first))

module _ (parse_prices : String → Prices) where
  handle-IsKeyed :
      (s t : LedgerState) (b : Body) (ts cid : String)
      → IsKeyed s.positions
      → handle parse_prices s b ts cid ≡ ok t
      → IsKeyed t.positions
  unfolding handle on_rejected on_halt_set on_halt_cleared on_kill_set on_kill_cleared
      on_breaker_tripped on_breaker_reset on_rollover
  handle-IsKeyed s t (position_opened row) ts cid h e =
      subst (λ x. IsKeyed x.positions) (ok-injective _ t e) (on_position_opened-IsKeyed s row cid h)
  handle-IsKeyed s t (position_closed row) ts cid h e =
      subst (λ x. IsKeyed x.positions) (ok-injective _ t e) (on_position_closed-IsKeyed s row h)
  handle-IsKeyed s t (fill_recorded row) ts cid h e =
      subst (λ x. IsKeyed x.positions) (ok-injective _ t e) (on_fill-IsKeyed s row h)
  handle-IsKeyed s t (mark_to_market row) ts cid h e =
      on_mtm-IsKeyed s t (parse_prices row.prices_json) ts h e
  handle-IsKeyed s t (approval_recorded row) ts cid h e =
      subst (λ x. IsKeyed x.positions) (ok-injective _ t e) (on_approval-IsKeyed s row h)
  handle-IsKeyed s t b ts cid h e = subst (λ x. IsKeyed x.positions) (ok-injective _ t e) h

  stamp-positions :
      (n : ℕ) (b : Body) (s : LedgerState) → (stamp parse_prices n b s).positions ≡ s.positions
  unfolding stamp
  stamp-positions n (unknown type) s = refl
  stamp-positions n b s = refl

  reduce-IsKeyed :
      (s t : LedgerState) (e : Event)
      → IsKeyed s.positions
      → reduce parse_prices s e ≡ ok t
      → IsKeyed t.positions
  unfolding reduce
  reduce-IsKeyed s t e h r =
      let (u, first, last) =
        >>=-eq-ok (handle parse_prices s e.body e.ts_utc e.correlation_id) _ r in
      subst (λ x. IsKeyed x.positions) (ok-injective _ t last)
        (rw stamp-positions (handle-IsKeyed s u e.body e.ts_utc e.correlation_id h first))

  -- In a state folded from genesis by any events, the position found under a mint is that mint's
  -- own: a fill, a mark or a flatten that looks a mint up acts on no other token.
  pub fold-genesis_mint :
      (source day : String) (initial : ℤ) (t : LedgerState) (es : List Event)
      → fold parse_prices (initial_state source initial day) es ≡ ok t
      → (mint : String) (p : PositionView) → lookup mint t.positions ≡ some p
      → p.mint ≡ mint
  unfolding initial_state
  fold-genesis_mint source day initial t es r mint p found =
      lookup-AllEntries HasMint mint p t.positions
        (fold_induction parse_prices (λ s. IsKeyed s.positions)
          (λ s u e h first. reduce-IsKeyed s u e h first) _ t es tt r)
        found
