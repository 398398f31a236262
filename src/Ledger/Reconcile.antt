-- ===== src/Ledger/Reconcile.antt =====
-- `reconcile` of src/pumpgrok/ledger/reconcile.py: the restart from a snapshot and the rows after it,
-- with its integrity checks.
pub mod Meta
pub mod Replay
mod Tests
use pump_grok.Prelude.{
  ℕ, zero, suc, ◌+◌, Bool, true, false, not, ◌&&◌, ◌||◌, String, Option, none, some, List, [], ◌∷◌,
  map, if◌then◌else◌, str_eq, leb, ltb, ◌==◌,
}
use pump_grok.Prelude.Lists.{length}
use pump_grok.Prelude.Int.{ℤ, pos, ◌+ℤ◌, ◌-ℤ◌}
use pump_grok.Prelude.Dict.{Dict, lookup, insert}
use pump_grok.Ledger.Events.{
  Event, Body, FillRecorded, fill_recorded, position_opened, position_closed, order_rejected,
}
use pump_grok.Ledger.State.{LedgerState, PositionView, initial_state}
use pump_grok.Ledger.Mark.{Prices, Result, ok, corrupt, ◌>>=◌, or_default}
use pump_grok.Ledger.Reducer.{fold}
use pump_grok.Core.Order.{eqb_ℤ}

-- A row as `read` gives it: the event, with its source and hash.
pub record Stored : Type 0 where
  pub event : Event
  pub source : String
  pub hash : String

pub record Snapshot : Type 0 where
  pub seq : ℕ
  pub state : LedgerState

-- What a restart reads: whether `verify` passes, the rows in the order of `seq`, the two entries of
-- the meta table, and the latest snapshot.
pub record Restart : Type 0 where
  pub is_verified : Bool
  pub rows : List Stored
  pub meta_source : Option String
  pub meta_equity : Option ℤ
  pub snapshot : Option Snapshot

-- `s[:n]`
unfoldable pub take_chars : ℕ → String → String
take_chars zero s = String.[]
take_chars (suc n) String.[] = String.[]
take_chars (suc n) (String.◌∷◌ c s) = String.◌∷◌ c (take_chars n s)

-- `meta_source or source`
abbrev pub source_or : Option String → String → String
source_or none source = source
source_or (some s) source = if str_eq s "" then source else s

-- `_genesis`
unfoldable pub genesis : Restart → List Stored → LedgerState
unfolding initial_state
genesis r [] = initial_state (source_or r.meta_source "paper") (or_default r.meta_equity (pos 0)) ""
genesis r (e ∷ es) =
    initial_state (source_or r.meta_source e.source) (or_default r.meta_equity (pos 0))
      (take_chars 10 e.event.ts_utc)

-- `read(since_seq=n)`
unfoldable pub read_since : ℕ → List Stored → List Stored
read_since n [] = []
read_since n (e ∷ es) = let rest = read_since n es in if leb n e.event.seq then e ∷ rest else rest

abbrev pub events_of : List Stored → List Event
events_of rows = map (λ e. e.event) rows

-- The check that fails.
pub data Failure : Type 0 where
  chain_broken replay_differs cash_differs snapshot_hash source_mixed units_differ closed_held :
      Failure

-- The two sums of `_check_cash`.
unfoldable pub fill_deltas : List Event → ℤ
fill_deltas [] = pos 0
fill_deltas (e ∷ es) =
    (elim e.body [ fill_recorded row ↦ row.cash_delta_lamports | _ ↦ pos 0 ]) +ℤ fill_deltas es

unfoldable pub rejected_fees : List Event → ℤ
rejected_fees [] = pos 0
rejected_fees (e ∷ es) =
    (elim e.body [ order_rejected row ↦ row.fees_lamports | _ ↦ pos 0 ]) +ℤ rejected_fees es

unfoldable pub check_cash : Restart → LedgerState → List Event → Option Failure
unfolding fill_deltas rejected_fees
check_cash r s es =
    if eqb_ℤ s.cash_lamports
      (or_default r.meta_equity (pos 0) +ℤ fill_deltas es -ℤ rejected_fees es)
    then none
    else some cash_differs

-- Whether the row at the snapshot's `seq` is there and has the hash.
unfoldable pub has_hash_at : ℕ → String → List Stored → Bool
has_hash_at n hash [] = false
has_hash_at n hash (e ∷ es) = e.event.seq == n && str_eq e.hash hash

unfoldable pub check_hash : Restart → ℕ → Option String → Option Failure
unfolding has_hash_at read_since
check_hash r n none = none
check_hash r n (some hash) =
    if has_hash_at n hash (read_since n r.rows) then none else some snapshot_hash

unfoldable pub check_snapshot : Restart → Option Snapshot → Option Failure
unfolding check_hash lookup
check_snapshot r none = none
check_snapshot r (some snap) = check_hash r snap.seq (lookup "chain_hash" snap.state.meta)

unfoldable pub one_source : String → List Stored → Bool
one_source source [] = true
one_source source (e ∷ es) = str_eq e.source source && one_source source es

unfoldable pub check_source : Restart → Option String → Option Failure
unfolding one_source
check_source r none = none
check_source r (some source) = if one_source source r.rows then none else some source_mixed

-- The three dicts of `_check_positions`, after one event.
pub record Tally : Type 0 where
  pub units : Dict ℤ
  pub last_open : Dict ℕ
  pub last_close : Dict ℕ

abbrev pub signed_units : FillRecorded → ℤ
signed_units row = if str_eq row.side "buy" then row.filled_units else pos 0 -ℤ row.filled_units

unfoldable pub tally_one : Tally → ℕ → Body → Tally
tally_one t seq (fill_recorded row) = record t {
  units =
      insert row.mint (or_default (lookup row.mint t.units) (pos 0) +ℤ signed_units row) t.units;
}
tally_one t seq (position_opened row) = record t { last_open = insert row.mint seq t.last_open }
tally_one t seq (position_closed row) = record t { last_close = insert row.mint seq t.last_close }
tally_one t seq body = t

unfoldable pub tally : Tally → List Event → Tally
unfolding tally_one
tally t [] = t
tally t (e ∷ es) = tally (tally_one t e.seq e.body) es

unfoldable pub units_match : Tally → Dict PositionView → Bool
units_match t [] = true
units_match t ((mint, p) ∷ d) =
    eqb_ℤ p.token_units (or_default (lookup mint t.units) (pos 0)) && units_match t d

abbrev pub is_stale_close : Option ℕ → Option ℕ → Bool
is_stale_close none opened = false
is_stale_close (some closed) opened = ltb (or_default opened 0) closed

unfoldable pub no_closed_held : Tally → Dict PositionView → Bool
no_closed_held t [] = true
no_closed_held t ((mint, p) ∷ d) =
    not (is_stale_close (lookup mint t.last_close) (lookup mint t.last_open)) && no_closed_held t d

unfoldable pub check_positions : LedgerState → List Event → Option Failure
unfolding tally units_match no_closed_held
check_positions s es =
    let t = tally (record { units = []; last_open = []; last_close = [] }) es in
    if not (units_match t s.positions)
    then some units_differ
    else if not (no_closed_held t s.positions)
    then some closed_held
    else none

-- The first failure of a list of checks.
unfoldable pub first_failure : List (Option Failure) → Option Failure
first_failure [] = none
first_failure (none ∷ checks) = first_failure checks
first_failure (some f ∷ checks) = some f

-- The report: consistent, with the snapshot's `seq`, the tail's length and the state; or the
-- failure.
pub data Report : Type 0 where
  consistent : ℕ → ℕ → LedgerState → Report
  inconsistent : Failure → Report

abbrev pub report_of : ℕ → ℕ → LedgerState → Option Failure → Report
report_of seq tail_events s none = consistent seq tail_events s
report_of seq tail_events s (some f) = inconsistent f

abbrev pub snapshot_seq : Option Snapshot → ℕ
snapshot_seq none = 0
snapshot_seq (some snap) = snap.seq

-- The state that the tail is replayed on.
unfoldable pub base_state : Restart → Option Snapshot → LedgerState
unfolding genesis
base_state r none = genesis r r.rows
base_state r (some snap) = snap.state

-- `{k: v for k, v in dump_state(s).items() if k != "meta"}`: the state's other fields.
abbrev pub without_meta : LedgerState → LedgerState
without_meta s = record s { meta = [] }

-- `_check_full_replay`. `dump` prints the dict that `model_dump` makes of a state, keys sorted.
unfoldable pub check_full_replay :
    (LedgerState → String) → LedgerState → LedgerState → Option Failure
check_full_replay dump tail_state full_state =
    if str_eq (dump (without_meta tail_state)) (dump (without_meta full_state))
    then none
    else some replay_differs

module _ (parse_prices : String → Prices) (dump : LedgerState → String) where
  unfoldable pub integrity_checks : Restart → LedgerState → LedgerState → Option Failure
  unfolding first_failure check_full_replay check_cash check_snapshot check_source check_positions
  integrity_checks r tail_state full_state = first_failure (
      check_full_replay dump tail_state full_state
      ∷ check_cash r tail_state (events_of r.rows)
      ∷ check_snapshot r r.snapshot
      ∷ check_source r r.meta_source
      ∷ check_positions tail_state (events_of r.rows)
      ∷ [])

  -- `reconcile`, which raises where a fold does. An empty ledger is consistent without checks.
  unfoldable pub checked : Restart → List Stored → LedgerState → Result Report
  unfolding integrity_checks genesis
  checked r [] tail_state = ok (consistent (snapshot_seq r.snapshot) 0 tail_state)
  checked r (e ∷ es) tail_state =
      fold parse_prices (genesis r (e ∷ es)) (events_of (e ∷ es)) >>= λ full_state. ok (
        report_of (snapshot_seq r.snapshot)
          (length (read_since (suc (snapshot_seq r.snapshot)) (e ∷ es))) tail_state
          (integrity_checks r tail_state full_state))

  unfoldable pub reconcile : Restart → Result Report
  unfolding read_since base_state checked
  reconcile r =
      if r.is_verified
      then (fold parse_prices (base_state r r.snapshot)
            (events_of (read_since (suc (snapshot_seq r.snapshot)) r.rows))
          >>= λ tail_state. checked r r.rows tail_state)
      else ok (inconsistent chain_broken)
