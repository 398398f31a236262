-- ===== src/Execution/Adapter/Rows.antt =====
-- The fold of the rows that a batch appends.
use pump_grok.Prelude.{ℕ, String, ◌≡◌, refl, subst, List, [], ◌∷◌}
use pump_grok.Ledger.Events.{
  Event, Body, FillRecorded, PositionOpened, PositionClosed, OrderRejected, fill_recorded,
  position_opened, position_closed, order_rejected, unknown,
}
use pump_grok.Ledger.State.{LedgerState}
use pump_grok.Ledger.Fill.{on_fill, on_position_opened, on_position_closed, on_rejected}
use pump_grok.Ledger.Mark.{Prices, ok}
use pump_grok.Ledger.Reducer.{handle, stamp, reduce, fold}
use pump_grok.Ledger.Reducer.Frame.{>>=-eq-ok, ok-injective}
use pump_grok.Execution.Adapter.Books.{books}

-- The events carry the rows, in order.
abbrev pub AreRows : List Event → List Body → Type 0
AreRows [] [] = Unit
AreRows [] (b ∷ bs) = ⊥
AreRows (e ∷ es) [] = ⊥
AreRows (e ∷ es) (b ∷ bs) = (e.body ≡ b) × AreRows es bs

-- Two states with the same books on the same positions.
abbrev pub SameBooks : LedgerState → LedgerState → Type 0
SameBooks t u = (books t ≡ books u) × (t.positions ≡ u.positions)

module _ (parse_prices : String → Prices) where
  stamp-SameBooks : (n : ℕ) (b : Body) (s : LedgerState) → SameBooks (stamp parse_prices n b s) s
  unfolding stamp books
  stamp-SameBooks n (unknown type) s = (refl, refl)
  stamp-SameBooks n b s = (refl, refl)

  -- A step ends with the books that its handler left.
  pub reduce-SameBooks :
      (s t u : LedgerState) (e : Event)
      → reduce parse_prices s e ≡ ok t
      → handle parse_prices s e.body e.ts_utc e.correlation_id ≡ ok u
      → SameBooks t u
  unfolding reduce
  reduce-SameBooks s t u e h handled =
      subst (λ x. SameBooks x u) (ok-injective _ t (rw handled at h))
        (stamp-SameBooks e.seq e.body u)

  pub reduce-fill :
      (s t : LedgerState) (e : Event) (row : FillRecorded)
      → e.body ≡ fill_recorded row
      → reduce parse_prices s e ≡ ok t
      → SameBooks t (on_fill s row)
  unfolding handle
  reduce-fill s t e row is h = reduce-SameBooks s t (on_fill s row) e h (rw is refl)

  pub reduce-opened :
      (s t : LedgerState) (e : Event) (row : PositionOpened)
      → e.body ≡ position_opened row
      → reduce parse_prices s e ≡ ok t
      → SameBooks t (on_position_opened s row e.correlation_id)
  unfolding handle
  reduce-opened s t e row is h =
      reduce-SameBooks s t (on_position_opened s row e.correlation_id) e h (rw is refl)

  pub reduce-closed :
      (s t : LedgerState) (e : Event) (row : PositionClosed)
      → e.body ≡ position_closed row
      → reduce parse_prices s e ≡ ok t
      → SameBooks t (on_position_closed s row)
  unfolding handle
  reduce-closed s t e row is h = reduce-SameBooks s t (on_position_closed s row) e h (rw is refl)

  pub reduce-rejected :
      (s t : LedgerState) (e : Event) (row : OrderRejected)
      → e.body ≡ order_rejected row
      → reduce parse_prices s e ≡ ok t
      → SameBooks t (on_rejected s row)
  unfolding handle
  reduce-rejected s t e row is h = reduce-SameBooks s t (on_rejected s row) e h (rw is refl)

  pub fold-head :
      (s t : LedgerState) (es : List Event) (b : Body) (bs : List Body)
      → AreRows es (b ∷ bs)
      → fold parse_prices s es ≡ ok t
      → (e : Event) × (rest : List Event) × (u : LedgerState) × (e.body ≡ b)
        × (reduce parse_prices s e ≡ ok u)
        × AreRows rest bs
        × (fold parse_prices u rest ≡ ok t)
  unfolding fold
  fold-head s t [] b bs h f = absurd h
  fold-head s t (e ∷ es) b bs h f =
      let (u, first, rest) = >>=-eq-ok (reduce parse_prices s e) _ f in
      (e, es, u, h.0, first, h.1, rest)

  pub fold-end :
      (s t : LedgerState) (es : List Event) → AreRows es [] → fold parse_prices s es ≡ ok t → s ≡ t
  unfolding fold
  fold-end s t [] h f = ok-injective s t f
  fold-end s t (e ∷ es) h f = absurd h
