-- ===== src/Lib.antt =====
-- The paper-trading desk of src/pumpgrok: its ledger, the state folded from it, the risk gate that
-- every order passes, the circuit breakers, and the integer money of the bonding curve.
--
-- The parts and how they interact. Every change of the desk is an event appended to the ledger
-- store, whose rows form a hash chain. The reducer folds the stored events into one state: cash,
-- positions, the peak of equity, the halt and kill-switch latches, counters. The risk engine reads
-- that state, the breakers, the approvals and the curve reserves, and walks nineteen steps for each
-- order. The paper adapter sizes an order by the curve and the fee model, waits for its confirmation,
-- and settles or refuses it with rows of the ledger; the reducer's books over those rows are the
-- desk's. A placement is one decision: its rows are keyed by the decision and by the approval that it
-- consumes, a repeat is answered from the ledger, and its end releases the breakers' probes that it
-- held and takes it out of the barrier that a flatten waits on. The kill switch stops the engine from
-- outside, and keeps its own row in the ledger, over clears and restarts. A restart reconciles the ledger with its last snapshot, and the supervisor bounds the
-- restarts of a crashing seat.
--
-- Which file models which part:
--   Prelude           shared names; integers (Int), dicts (Dict), lists (Lists), Decimal (Decimal)
--   Ledger/Events     src/pumpgrok/ledger/events.py: one record per payload, Body for the types
--   Ledger/State      src/pumpgrok/ledger/reducer.py: the views, LedgerState, initial_state, peak
--   Ledger/Fill, Mark the same file: the handlers of positions, fills, rejections and marks
--   Ledger/Reducer    the same file: the other handlers, handle for _HANDLERS, reduce; fold
--                     is the loop of _fold in src/pumpgrok/risk/engine/core.py
--   Ledger/Views      src/pumpgrok/ledger/views.py: positions, unrealized result, equity
--   Ledger/Store      src/pumpgrok/ledger/store.py: append, append_batch, verify, by_key
--   Ledger/Reconcile  src/pumpgrok/ledger/reconcile.py: reconcile and its checks, over what
--                     read, get_meta and latest_snapshot of store.py give
--   Core/Order        src/pumpgrok/core/adapter.py: OrderRequest
--   Core/Approval     src/pumpgrok/core/approvals.py: ApprovalRecord and matches
--   Core/Json, Idempotency  src/pumpgrok/core/idempotency.py: _normalize and the keys; also
--                     order_hash_for of src/pumpgrok/risk/engine/model.py
--   Risk/Breaker      src/pumpgrok/risk/breakers.py: Breaker; Call lists its calls
--   Risk/Domain       the same file: the three domain breakers
--   Risk/Rebuild      the same file: BreakerSet.rebuild, for one breaker
--   Risk/Engine       src/pumpgrok/risk/engine: Vocabulary (constants.py), Model (model.py),
--                     Approvals and Limits (steps.py), Walk (the other steps, rules.py, _evaluate);
--                     step_<id> is _step_<id>, and the short steps are clauses of run_step
--   Risk/Engine/Context  _new_ctx of src/pumpgrok/risk/engine/core.py
--   Risk/Engine/Journal, Flatten, HaltClear, Cache, Decide  the same file: _approvals, _killed_mints
--                     and _creator_of; plan_flatten; request_halt_clear; the cache of check; _accept
--                     and _reject
--   Risk/Claim        the probes' owners: snapshot_probes and claim_probe of rules.py; in
--                     Claim/Release release_order_probes of core.py and _transition of breakers.py
--   Risk/KillSwitch   src/pumpgrok/risk/killswitch.py: Model (the state, the latch file's text, the
--                     ledger rows), Alerts (absorb_alerts), Poll (poll, live_sources), Clear
--                     (observe, request_clear); proofs in FailClosed, Absorb, Cleared, Latch, Epochs
--                     and Restart
--   Execution/Adapter src/pumpgrok/execution/paper_adapter: Model (the settings and values), Confirm
--                     (confirm_stages.py), Buy (buy.py), Sell (sell.py, sell_stages.py); the rows
--                     that a placement appends are the result of place_buy and place_sell
--   Execution/Orders  the same folder: Journal and Batch (batch.py, batch_stages.py, models.py: the
--                     keyed rows, _reject, _repeat_outcome, the order batch), Sizing and Place
--                     (_place_order and its stages), Calls (place, _settle_probes, _clear_owned,
--                     cancel and the in-flight set)
--   Execution/Curve   src/pumpgrok/execution/curve_math.py: the integer functions
--   Execution/Fees    src/pumpgrok/execution/fees.py: FeeModel
--   Supervisor/Restart src/pumpgrok/supervisor/seat_restart.py: RestartPolicy, ObserveOnly
--
-- Conventions. A Python integer is ℤ, with floor division written out; counters, sequence numbers
-- and times are ℕ in one fixed unit. A dict is an association list in insertion order. A raised
-- exception is an error value: CorruptState in the reducer, _Fail and CorruptState in the step walk,
-- ValueError and IntegrityError in the store. There is no fuel: every loop of the source runs over a
-- finite list, and the model recurses on that list. A reading of the injected clock is an argument.
--
-- Parameters stand for library code and for text and float primitives: SHA-256 over the canonical
-- JSON (digest), the validation of a payload by its model (validate), json.loads of the marks
-- (parse_prices), the parsing of a timestamp (parse_ts_utc), the float ratios of the loss and
-- drawdown tests (falls, calms, drawdown_reached), the text of a dumped state (dump), the
-- Decimal quotients of a fill's figures (ratio), the age of a position (seconds_since), and, for the
-- kill switch, strip, split, splitlines and the two regular expressions (TextOps, is_seat) and
-- whether a write of the latch file succeeds (writable); a write that fails leaves the file as it
-- was. Of SHA-256 the tamper theorem assumes no more than that it does not collide on the rows
-- compared, and the restart of the kill switch that it does not on the texts of one engagement.
--
-- In Execution/Orders the ledger is its keyed rows: an append of rows that validate fails exactly when
-- a key is taken, and then leaves the ledger as it was, as Ledger/Store shows of one transaction. The
-- rows that the engine and other calls append while a placement waits are Meanwhile, and the engine's
-- two decisions and the curve that is read are Answers. An id that the factory gives is a field of the
-- placement; json.dumps, SHA-256 and str of a Decimal are the Codec, a refusal's text is describe, and
-- the match of a kill verdict, the validation of a stored approval and the field checks of the models
-- that a flatten builds (builds) are arguments.
--
-- Not modelled: the sqlite connection, locks and files of the store, its other read filters and the
-- writing of snapshots; the windowed views and ratios of views.py; of the risk engine the text of the
-- decision cache's key, the evaluated rows of a decision and the kill-switch file watcher; of
-- BreakerSet the refresh, the sync from the ledger and the keys and figures of its rows; the size of
-- an order that names none, which a sell leaves unset and no step of a sell reads; of the paper
-- adapter the sleep, the price service, the marks and the queries: what a stage finds after the sleep
-- is Found, and the fold at settlement is an argument; of the kill switch the barrier's waiting and
-- the alert service; of the supervisor all but the restart budget and the observe-only latches; the
-- scheduler, the tools, the backtest, the command line and the reports.
pub mod Prelude
pub mod Ledger
pub mod Execution
pub mod Core
pub mod Risk
pub mod Supervisor
