-- ===== src/Ledger/Reducer/Frame.antt =====
-- What `track_peak` and a mark leave alone, and inversion of a fold's steps.
use pump_grok.Prelude.{String, ◌≡◌, refl, subst, List, [], ◌∷◌, arith}
use pump_grok.Prelude.Int.{◌≤ℤ◌}
use pump_grok.Ledger.Events.{Event}
use pump_grok.Ledger.State.{LedgerState, equity_lamports, track_peak}
use pump_grok.Ledger.Mark.{Prices, Result, ok, corrupt, ◌>>=◌}
use pump_grok.Ledger.Reducer.{reduce, fold}

pub track_peak-cash : (s : LedgerState) → (track_peak s).cash_lamports ≡ s.cash_lamports
unfolding track_peak
track_peak-cash s = ground arith

pub track_peak-positions : (s : LedgerState) → (track_peak s).positions ≡ s.positions
unfolding track_peak
track_peak-positions s = ground arith

pub track_peak-equity : (s : LedgerState) → equity_lamports (track_peak s) ≡ equity_lamports s
unfolding equity_lamports
track_peak-equity s = cc (track_peak-cash s, track_peak-positions s)

pub track_peak-halt : (s : LedgerState) → (track_peak s).halt ≡ s.halt
unfolding track_peak
track_peak-halt s = ground arith

pub track_peak-kill : (s : LedgerState) → (track_peak s).kill_switch ≡ s.kill_switch
unfolding track_peak
track_peak-kill s = ground arith

pub track_peak-counters : (s : LedgerState) → (track_peak s).counters ≡ s.counters
unfolding track_peak
track_peak-counters s = ground arith

pub equity-le-track_peak :
    (s : LedgerState) → equity_lamports s ≤ℤ (track_peak s).peak_equity_lamports
unfolding track_peak
equity-le-track_peak s = ground arith

pub peak-le-track_peak :
    (s : LedgerState) → s.peak_equity_lamports ≤ℤ (track_peak s).peak_equity_lamports
unfolding track_peak
peak-le-track_peak s = ground arith

-- A bind that ends in a state had a state to go on from.
pub >>=-eq-ok {ℓ κ} :
    {A : Type ℓ} {B : Type κ} (first : Result A) (next : A → Result B) {last : B}
    → first >>= next ≡ ok last
    → (middle : A) × (first ≡ ok middle) × (next middle ≡ ok last)
>>=-eq-ok corrupt next eq = cc
>>=-eq-ok (ok middle) next eq = (middle, refl, eq)

pub ok-injective {ℓ} : {A : Type ℓ} (a b : A) → ok a ≡ ok b → a ≡ b
ok-injective a b e = cc

module _ (parse_prices : String → Prices) (P : LedgerState → Type 0) where
  -- An invariant of the steps is one of the fold.
  pub fold_induction :
      ((s t : LedgerState) (e : Event) → P s → reduce parse_prices s e ≡ ok t → P t)
      → (s t : LedgerState) (es : List Event) → P s
      → fold parse_prices s es ≡ ok t
      → P t
  unfolding fold
  fold_induction step s t [] p h = subst P (ok-injective s t h) p
  fold_induction step s t (e ∷ es) p h =
      let (u, first, rest) = >>=-eq-ok (reduce parse_prices s e) (λ v. fold parse_prices v es) h in
      fold_induction step u t es (step s u e p first) rest
