-- ===== src/Ledger/Reconcile/Tests.antt =====
-- A restart of a ledger of two rejections from a snapshot of the first.
use pump_grok.Prelude.{ℕ, String, true, some, [], ◌∷◌, ◌≡◌, refl, arith}
use pump_grok.Prelude.Lists.{length}
use pump_grok.Prelude.Int.{pos}
use pump_grok.Prelude.Dict.{Dict}
use pump_grok.Ledger.Events.{paper, OrderRejected, order_rejected}
use pump_grok.Ledger.State.{LedgerState, PositionView, initial_state}
use pump_grok.Ledger.Mark.{Prices, Result, ok, corrupt}
use pump_grok.Ledger.Reducer.{fold, reduce, handle, stamp}
use pump_grok.Ledger.Reconcile.{
  Stored, Restart, genesis, take_chars, read_since, events_of, first_failure, check_snapshot,
  check_source, check_positions, report_of, reconcile,
}
use pump_grok.Risk.KillSwitch.Model.{joined}
use pump_grok.Ledger.Reconcile.Meta.{with_meta}
use pump_grok.Ledger.Reconcile.Replay.{IsHonest, reconcile-replay}

abbrev rejection : OrderRejected
rejection = record {
  source = paper;
  order_id = "o1";
  decision_id = "d1";
  reason = "slippage_exceeded";
  detail = "";
  stage = "CONFIRMING";
  fees_lamports = pos 9_000;
  quote_out = pos 0;
  other_amount_threshold = pos 0;
  confirm_out = pos 0;
}

abbrev row : ℕ → String → Stored
row n hash = record {
  event = record {
    seq = n;
    ts_utc = "2026-01-01T00:00:00Z";
    correlation_id = "c";
    body = order_rejected rejection;
  };
  source = "paper";
  hash = hash;
}

abbrev no_prices : String → Prices
no_prices text = []

abbrev first_row : Stored
first_row = row 1 "h1"

abbrev second_row : Stored
second_row = row 2 "h2"

abbrev start : LedgerState
start = initial_state "paper" (pos 1_000_000) "2026-01-01"

abbrev state_of : Result LedgerState → LedgerState
state_of (ok s) = s
state_of corrupt = start

abbrev after_first : LedgerState
after_first = state_of (fold no_prices start (events_of (first_row ∷ [])))

abbrev after_both : LedgerState
after_both = state_of (fold no_prices start (events_of (first_row ∷ second_row ∷ [])))

abbrev chain_meta : Dict String
chain_meta = ("chain_hash", "h1") ∷ []

abbrev restart : Restart
restart = record {
  is_verified = true;
  rows = first_row ∷ second_row ∷ [];
  meta_source = some "paper";
  meta_equity = some (pos 1_000_000);
  snapshot = some (record { seq = 1; state = with_meta chain_meta after_first });
}

abbrev first_mint : Dict PositionView → String
first_mint [] = ""
first_mint ((mint, p) ∷ positions) = joined mint p.ticket_id

-- The texts of a state, and of its first position.
abbrev dump : LedgerState → String
dump s = joined s.source (
    joined s.day_utc (
      joined s.last_mtm_ts_utc
        (joined s.halt.reason (joined s.kill_switch.source (first_mint s.positions)))))

honest : IsHonest no_prices restart restart.snapshot
unfolding genesis initial_state take_chars fold reduce handle stamp
honest = (
  first_row ∷ [],
  second_row ∷ [],
  refl,
  (omega arith, tt),
  (omega arith, tt),
  after_first,
  chain_meta,
  refl,
  refl,
)

folds : fold no_prices (genesis restart restart.rows) (events_of restart.rows) ≡ ok after_both
unfolding genesis initial_state take_chars fold reduce handle stamp
folds = refl

reconcile-replay_example :
    (m : Dict String) × (reconcile no_prices dump restart
      ≡ ok (
          report_of 1
            (length (read_since 2 (first_row ∷ second_row ∷ [])))
            (with_meta m after_both)
            (first_failure (
              check_snapshot restart restart.snapshot
              ∷ check_source restart restart.meta_source
              ∷ check_positions (with_meta m after_both) (events_of restart.rows)
              ∷ []))))
reconcile-replay_example =
    reconcile-replay no_prices dump restart after_both refl (omega arith) honest folds
