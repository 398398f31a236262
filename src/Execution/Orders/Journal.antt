-- ===== src/Execution/Orders/Journal.antt =====
-- The keyed ledger that an order reads and writes, and the outcomes that it reads back: batch.py and
-- models.py of src/pumpgrok/execution/paper_adapter.
use pump_grok.Prelude.{
  ℕ, suc, Bool, not, String, Option, none, some, List, [], ◌∷◌, ◌++◌, str_eq, if◌then◌else◌,
}
use pump_grok.Prelude.Int.{ℤ, pos}
use pump_grok.Prelude.Decimal.{Decimal, lt_decimal}
use pump_grok.Ledger.Events.{
  Body, FillRecorded, OrderRejected, order_placed, order_rejected, fill_recorded, position_closed,
  halt_set, halt_cleared, kill_switch_set, escalation,
}
use pump_grok.Risk.KillSwitch.Model.{Logged}
use pump_grok.Risk.KillSwitch.Clear.{key_taken, ◌⧺◌}
use pump_grok.Core.Idempotency.{side_text}
use pump_grok.Execution.Adapter.Model.{Placing, Refusal, refusal_row}

-- `by_key`: the body of the row that has a key.
unfoldable pub by_key : List Logged → String → Option Body
by_key [] k = none
by_key ((j, body) ∷ rows) k = if str_eq j k then some body else by_key rows k

-- `append` and `append_batch` of rows that validate: `none` is an `IntegrityError`, which leaves the
-- ledger as it was.
unfoldable pub append_rows : List Logged → List Logged → Option (List Logged)
unfolding key_taken
append_rows rows [] = some rows
append_rows rows ((k, body) ∷ more) =
    let grown = append_rows (rows ++ (k, body) ∷ []) more in
    if key_taken k rows then none else grown

-- `Fill`. `is_whole` is the status: FILLED, or else PARTIAL.
pub record Fill : Type 0 where
  pub order_id : String
  pub decision_id : String
  pub is_whole : Bool
  pub venue_tx_ref : String
  pub filled_lamports : ℤ
  pub filled_units : ℤ
  pub filled_fraction : Decimal
  pub price_avg : Decimal
  pub realised_slippage_bps : ℤ
  pub venue_fee_lamports : ℤ
  pub network_cost_lamports : ℤ
  pub route : String
  pub ledger_seq : ℕ

-- What an `OrderRejectedError` carries.
pub record Rejection : Type 0 where
  pub reason : String
  pub detail : String
  pub stage : String
  pub fees : ℤ

-- How a placement ends: a fill, an `OrderRejectedError`, an `OrderUnknownError`, or another error.
pub data Attempt : Type 0 where
  filled : Fill → Attempt
  rejected : Rejection → Attempt
  unsettled : Rejection → Attempt
  crashed : Attempt

abbrev one_decimal : Decimal
one_decimal = record { coefficient = pos 1; places = 0 }

-- `Decimal(...) >= 1`
unfoldable pub is_whole_fraction : Decimal → Bool
unfolding lt_decimal
is_whole_fraction d = not (lt_decimal d one_decimal)

-- The `Fill` that `_repeat_outcome` reads from a row.
unfoldable pub stored_fill : String → ℕ → FillRecorded → Fill
unfolding is_whole_fraction
stored_fill order_id seq r = record {
  order_id = order_id;
  decision_id = r.decision_id;
  is_whole = is_whole_fraction r.filled_fraction;
  venue_tx_ref = r.venue_tx_ref;
  filled_lamports = r.filled_lamports;
  filled_units = r.filled_units;
  filled_fraction = r.filled_fraction;
  price_avg = r.price_avg;
  realised_slippage_bps = r.realised_slippage_bps;
  venue_fee_lamports = r.venue_fee_lamports;
  network_cost_lamports = r.network_cost_lamports;
  route = r.route;
  ledger_seq = seq;
}

-- The error of a reason: a timed-out confirmation is unknown, and is never retried.
unfoldable pub by_reason : Rejection → Attempt
by_reason r = if str_eq r.reason "confirmation_timeout" then unsettled r else rejected r

unfoldable pub stored_rejection : OrderRejected → Rejection
stored_rejection r = record {
  reason = r.reason;
  detail = r.detail;
  stage = r.stage;
  fees = r.fees_lamports;
}

-- What one row says of an order, if it settles it.
unfoldable pub outcome_at : String → ℕ → Body → Option Attempt
unfolding stored_fill by_reason stored_rejection
outcome_at order_id seq (fill_recorded r) =
    if str_eq r.order_id order_id then some (filled (stored_fill order_id seq r)) else none
outcome_at order_id seq (order_rejected r) =
    if str_eq r.order_id order_id then some (by_reason (stored_rejection r)) else none
outcome_at order_id seq body = none

-- The first of the rows from `seq` on that settles an order.
unfoldable pub first_outcome : String → ℕ → List Logged → Option Attempt
unfolding outcome_at
first_outcome order_id seq [] = none
first_outcome order_id seq ((k, body) ∷ rows) = elim (outcome_at order_id seq body) [
  | none ↦ first_outcome order_id (suc seq) rows
  | some a ↦ some a
]

-- `payload.get("order_id", "")`
unfoldable pub order_id_of : Body → String
order_id_of (order_placed r) = r.order_id
order_id_of (order_rejected r) = r.order_id
order_id_of (fill_recorded r) = r.order_id
order_id_of body = ""

abbrev pub in_flight : Rejection
in_flight = record {
  reason = "in_flight";
  detail = "prior attempt recorded no outcome";
  stage = "ACCEPTED";
  fees = pos 0;
}

-- `_repeat_outcome`, by the row that the decision's key has.
unfoldable pub repeat_from : List Logged → Option Body → Option Attempt
unfolding first_outcome order_id_of
repeat_from rows none = none
repeat_from rows (some body) = elim (first_outcome (order_id_of body) 1 rows) [
  | none ↦ some (rejected in_flight)
  | some a ↦ some a
]

unfoldable pub repeat_outcome : List Logged → String → Option Attempt
unfolding repeat_from by_key
repeat_outcome rows place_key = repeat_from rows (by_key rows place_key)

-- The fields of a stored payload that `_rejection_from_row` reads.
unfoldable pub reason_of : Body → Option String
reason_of (order_rejected r) = some r.reason
reason_of (position_closed r) = some r.reason
reason_of (halt_set r) = some r.reason
reason_of (halt_cleared r) = some r.reason
reason_of (kill_switch_set r) = some r.reason
reason_of body = none

unfoldable pub detail_of : Body → Option String
detail_of (order_rejected r) = some r.detail
detail_of (halt_set r) = some r.detail
detail_of (escalation r) = some r.detail
detail_of body = none

unfoldable pub stage_of : Body → Option String
stage_of (order_rejected r) = some r.stage
stage_of body = none

unfoldable pub fees_of : Body → Option ℤ
fees_of (order_rejected r) = some r.fees_lamports
fees_of body = none

abbrev or_else {ℓ} : {A : Type ℓ} → Option A → A → A
or_else none a = a
or_else (some b) a = b

unfoldable pub rejection_from_row : Body → Rejection → Attempt
unfolding reason_of detail_of stage_of fees_of by_reason
rejection_from_row body fallback = by_reason (record {
  reason = or_else (reason_of body) fallback.reason;
  detail = or_else (detail_of body) fallback.detail;
  stage = or_else (stage_of body) fallback.stage;
  fees = or_else (fees_of body) fallback.fees;
})

unfoldable pub reject_key : Placing → Refusal → String
reject_key p r =
    "reject|"
    ⧺ p.request.ticket_id
    ⧺ "|"
    ⧺ side_text p.request.side
    ⧺ "|"
    ⧺ p.request.decision_id
    ⧺ "|"
    ⧺ r.stage
    ⧺ "|"
    ⧺ r.reason

unfoldable pub rejection_of : Refusal → String → Rejection
rejection_of r detail = record {
  reason = r.reason;
  detail = detail;
  stage = r.stage;
  fees = r.fees;
}

-- The row's `detail`, and the id of an order that was not placed.
abbrev row_detail : Placing → String → String
row_detail p detail = detail ⧺ " ticket=" ⧺ p.request.ticket_id ⧺ " mint=" ⧺ p.request.mint

abbrev unplaced_id : Placing → String
unplaced_id p = "unplaced-" ⧺ p.request.decision_id

unfoldable pub reject_body : Placing → Refusal → String → Body
unfolding refusal_row
reject_body p r detail = order_rejected (refusal_row p (row_detail p detail) (unplaced_id p) r)

-- `_reject`, by whether its key is there: the error that it returns, and the ledger.
unfoldable pub reject : Placing → Refusal → String → List Logged → Attempt × List Logged
unfolding reject_key rejection_of reject_body by_key rejection_from_row
reject p r detail rows = elim (by_key rows (reject_key p r)) [
  | none ↦ (rejected (rejection_of r detail), rows ++ (reject_key p r, reject_body p r detail) ∷ [])
  | some body ↦ (rejection_from_row body (rejection_of r detail), rows)
]
