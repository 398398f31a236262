-- ===== src/Ledger/Mark.antt =====
-- The handler of marks in src/pumpgrok/ledger/reducer.py. A price that is no number raises
-- `CorruptState`, so a step returns a result.
use pump_grok.Prelude.{String, Option, none, some, List, [], ◌∷◌, if◌then◌else◌}
use pump_grok.Prelude.Int.{ℤ}
use pump_grok.Prelude.Dict.{Dict, lookup, insert}
use pump_grok.Prelude.Decimal.{Decimal, max_decimal, zero_decimal}
use pump_grok.Ledger.State.{PositionView, LedgerState, track_peak}

-- A step's outcome: the new state, or `CorruptState`.
pub data Result {ℓ} (A : Type ℓ) : Type ℓ where
  ok : A → Result A
  corrupt : Result A

infixl 5 ◌>>=◌
abbrev pub ◌>>=◌ {ℓ κ} : {A : Type ℓ} {B : Type κ} → Result A → (A → Result B) → Result B
ok a >>= f = f a
corrupt >>= f = corrupt

-- One entry of the parsed `prices_json`. `none` is a missing key; `bad_spot` is a `spot` that
-- `Decimal` refuses.
pub data Spot : Type 0 where
  missing bad_spot : Spot
  price : Decimal → Spot

pub record Mark : Type 0 where
  pub mtm_lamports : Option ℤ
  pub venue_fee_lamports : Option ℤ
  pub spot : Spot
  pub ts_utc : Option String
  pub source : Option String

-- The parsed `prices_json`: a mint's value that is no object is `none`.
abbrev pub Prices : Type 0
Prices = List (String × Option Mark)

abbrev pub or_default {ℓ} : {A : Type ℓ} → Option A → A → A
or_default none d = d
or_default (some a) d = a

-- `max(Decimal(pos.price_peak), Decimal(spot))`; a missing `spot` is "0".
unfoldable pub marked_peak : Decimal → Spot → Result Decimal
marked_peak peak missing = ok (max_decimal peak zero_decimal)
marked_peak peak bad_spot = corrupt
marked_peak peak (price d) = ok (max_decimal peak d)

-- The update of one position by its mark.
unfoldable pub marked : String → Mark → PositionView → Decimal → PositionView
marked ts_utc m p peak = record p {
  last_mtm_venue_fee_lamports = or_default m.venue_fee_lamports p.last_mtm_venue_fee_lamports;
  last_mtm_lamports = or_default m.mtm_lamports p.last_mtm_lamports;
  last_mtm_ts_utc = or_default m.ts_utc ts_utc;
  mtm_source = or_default m.source "curve";
  price_peak = peak;
}

-- One round of the loop over the prices, by the position that the mint has.
unfoldable pub mark_one :
    String → String → Mark → Option PositionView → Dict PositionView → Result (Dict PositionView)
mark_one ts_utc mint m none d = ok d
mark_one ts_utc mint m (some p) d =
    if p.mtm_frozen
    then ok d
    else (marked_peak p.price_peak m.spot >>= λ peak. ok (insert mint (marked ts_utc m p peak) d))

unfoldable pub mark_all : String → Prices → Dict PositionView → Result (Dict PositionView)
mark_all ts_utc [] d = ok d
mark_all ts_utc ((mint, none) ∷ prices) d = mark_all ts_utc prices d
mark_all ts_utc ((mint, some m) ∷ prices) d =
    mark_one ts_utc mint m (lookup mint d) d >>= λ d'. mark_all ts_utc prices d'

unfoldable pub on_mtm : LedgerState → Prices → String → Result LedgerState
on_mtm s prices ts_utc = mark_all ts_utc prices s.positions >>= λ d.
    ok (track_peak (record s { positions = d; last_mtm_ts_utc = ts_utc }))
