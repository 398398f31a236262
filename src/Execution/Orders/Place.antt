-- ===== src/Execution/Orders/Place.antt =====
-- `_place_order` of src/pumpgrok/execution/paper_adapter/buy.py: a placement from its request to its
-- outcome, with the rows that the engine and other orders append while it waits.
use pump_grok.Prelude.{
  suc, not, String, Option, none, some, List, [], ◌∷◌, ◌++◌, str_eq, if◌then◌else◌,
}
use pump_grok.Prelude.Int.{pos}
use pump_grok.Prelude.Lists.{length}
use pump_grok.Ledger.Events.{Body, fill_recorded, position_closed}
use pump_grok.Ledger.Mark.{or_default}
use pump_grok.Ledger.State.{LedgerState}
use pump_grok.Core.Idempotency.{Codec, exec_place_key, order_hash_for}
use pump_grok.Risk.KillSwitch.Model.{Logged}
use pump_grok.Risk.KillSwitch.Clear.{◌⧺◌}
use pump_grok.Execution.Adapter.Model.{
  CurveSnapshot, Venue, Placing, Refusal, Staged, done, refused, raised, ◌>>=◌, at_accepted,
}
use pump_grok.Execution.Orders.Journal.{
  Attempt, filled, unsettled, crashed, append_rows, repeat_outcome, reject, rejection_of,
}
use pump_grok.Execution.Orders.Sizing.{Settlement, Accepted, order_curve, Run, size_order}
use pump_grok.Execution.Orders.Batch.{Quote, Submitted, sent, over, place_key_of, submit_order}
use pump_grok.Risk.Engine.Decide.{Decision}

-- The rows of a settlement with their keys.
unfoldable pub settlement_key : String → Body → String
settlement_key order_id (fill_recorded r) = "fill|" ⧺ order_id
settlement_key order_id (position_closed r) = "close|" ⧺ order_id
settlement_key order_id body = "position|" ⧺ order_id

unfoldable pub keyed : String → List Body → List Logged
unfolding settlement_key
keyed order_id [] = []
keyed order_id (body ∷ bodies) = (settlement_key order_id body, body) ∷ keyed order_id bodies

-- The error that a refusal raises; that of an overrun has a text of its own.
unfoldable pub raise_refusal : Placing → Refusal → String → List Logged → Attempt × List Logged
unfolding reject rejection_of
raise_refusal p r detail rows =
    let (a, rows') = reject p r detail rows in
    if str_eq r.reason "confirmation_timeout"
    then (
      unsettled (record {
        reason = "confirmation_timeout";
        detail = "order_id=" ⧺ p.order_id ⧺ " outcome UNKNOWN; never retried";
        stage = "CONFIRMING";
        fees = pos 0;
      }),
      rows',
    )
    else (a, rows')

-- The end of a written order on the ledger at its settlement. `describe` is a refusal's text.
unfoldable pub settle_order :
    Placing → (Refusal → String) → Staged Settlement → List Logged → Attempt × List Logged
unfolding raise_refusal keyed append_rows
settle_order p describe raised rows = (crashed, rows)
settle_order p describe (refused r) rows = raise_refusal p r (describe r) rows
settle_order p describe (done t) rows = elim (append_rows rows (keyed p.order_id t.bodies)) [
  | none ↦ (crashed, rows)
  | some rows' ↦ (filled (t.fill (suc (length rows))), rows')
]

-- The rows that the engine and other orders append while a placement waits: in the risk check, in
-- the curve read, in the re-check, and from the write to the settlement.
pub record Meanwhile : Type 0 where
  pub checking : List Logged
  pub reading : List Logged
  pub rechecking : List Logged
  pub confirming : List Logged

-- What the engine and the price source answer: the two decisions and the curve.
pub record Answers : Type 0 where
  pub decision : Decision
  pub curve : Option CurveSnapshot
  pub recheck : Decision

-- `fold` is `_fold_state`, and `quote_id` the id that the factory gives the quote.
module _ (c : Codec) (v : Venue) (fold : List Logged → LedgerState)
    (describe : Refusal → String) where
  -- From the write on.
  unfoldable pub after_write : Run → Accepted → List Logged → Submitted → Attempt × List Logged
  unfolding settle_order
  after_write r a others (over attempt rows) = (attempt, rows)
  after_write r a others (sent rows) =
      settle_order r.p describe (a.finish (fold (rows ++ others))) (rows ++ others)

  -- From the curve's gates on, on the ledger after the curve was read.
  unfoldable pub after_curve :
      Run → Answers → Meanwhile → String → Staged Accepted → List Logged → Attempt × List Logged
  unfolding raise_refusal submit_order after_write
  after_curve r ans m quote_id raised rows = (crashed, rows)
  after_curve r ans m quote_id (refused x) rows = raise_refusal r.p x (describe x) rows
  after_curve r ans m quote_id (done a) rows =
      let q : Quote = record {
        id = quote_id;
        out0 = a.out0;
        threshold = a.threshold;
        impact = a.impact;
      } in
      after_write r a m.confirming (submit_order c r.p q ans.recheck (rows ++ m.rechecking))

  unfoldable pub place_new :
      Run → Answers → Meanwhile → String → List Logged → Attempt × List Logged
  unfolding order_hash_for reject order_curve size_order after_curve
  place_new r ans m quote_id rows =
      let checked = rows ++ m.checking in
      let read = checked ++ m.reading in
      if not (str_eq ans.decision.order_hash (order_hash_for c r.p.request))
      then (crashed, checked)
      else if not ans.decision.passed
      then reject r.p (at_accepted ans.decision.reason) "risk refused" checked
      else after_curve r ans m quote_id
          (order_curve r.p.request ans.curve >>= λ curve0.
            size_order v r r.p.request.side (or_default ans.decision.size_lamports (pos 0)) curve0
              (fold read))
          read

  -- `_place_order`: how the placement ends, and the ledger then.
  unfoldable pub place_order :
      Run → Answers → Meanwhile → String → List Logged → Attempt × List Logged
  unfolding repeat_outcome place_new exec_place_key
  place_order r ans m quote_id rows = elim (repeat_outcome rows (place_key_of c r.p.request)) [
    | some a ↦ (a, rows)
    | none ↦ place_new r ans m quote_id rows
  ]
