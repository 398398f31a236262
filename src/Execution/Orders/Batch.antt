-- ===== src/Execution/Orders/Batch.antt =====
-- The rows of an accepted order: batch_stages.py and `_append_order_batch` of batch.py in
-- src/pumpgrok/execution/paper_adapter.
use pump_grok.Prelude.{
  Bool, true, false, not, ◌&&◌, String, Option, none, some, List, [], ◌∷◌, ◌++◌, str_eq,
  if◌then◌else◌,
}
use pump_grok.Prelude.Int.{ℤ, pos}
use pump_grok.Prelude.Decimal.{Decimal}
use pump_grok.Ledger.Events.{EventSource, Body, approval_recorded, order_placed}
use pump_grok.Ledger.Mark.{or_default}
use pump_grok.Core.Order.{Side, buy, sell, OrderRequest, exit_rule_reasons}
use pump_grok.Core.Approval.{
  ApprovalRecord, Kind, human_buy, human_sell, exit_rule, autonomous_paper, killswitch_clear,
  halt_clear, live_gate,
}
use pump_grok.Core.Json.{Value, null, text, flag, int, ratio, object, Fields, field, no_field}
use pump_grok.Core.Idempotency.{Codec, canonical_json, exec_place_key, side_text}
use pump_grok.Risk.Engine.Model.{reason_in}
use pump_grok.Risk.Engine.Decide.{Decision}
use pump_grok.Prelude.Dict.{Dict}
use pump_grok.Risk.KillSwitch.Model.{Logged}
use pump_grok.Risk.KillSwitch.Clear.{key_taken, ◌⧺◌, text_or_empty}
use pump_grok.Execution.Adapter.Model.{Placing, at_accepted}
use pump_grok.Execution.Orders.Journal.{
  append_rows, Attempt, rejected, crashed, in_flight, repeat_outcome, reject,
}

abbrev pub kind_text : Kind → String
kind_text human_buy = "human_buy"
kind_text human_sell = "human_sell"
kind_text exit_rule = "exit_rule"
kind_text autonomous_paper = "autonomous_paper"
kind_text killswitch_clear = "killswitch_clear"
kind_text halt_clear = "halt_clear"
kind_text live_gate = "live_gate"

abbrev text_or_null : Option String → Value
text_or_null none = null
text_or_null (some s) = text s

-- A quote of an order: its id, and the figures of its sizing.
pub record Quote : Type 0 where
  pub id : String
  pub out0 : ℤ
  pub threshold : ℤ
  pub impact : Decimal

unfoldable pub quote_json_for : Codec → OrderRequest → Quote → Option String
unfolding canonical_json
quote_json_for c request q = canonical_json c (
    field (some "in_amount") (int (or_default request.size_lamports (pos 0))) (
      field (some "out_amount") (int q.out0) (
        field (some "other_amount_threshold") (int q.threshold) (
          field (some "price_impact_pct") (ratio q.impact) (
            field (some "source") (text "curve") (
              field (some "quote_id") (text q.id)
                (field (some "jupiter_quote_id") (text_or_null request.quote_id) no_field)))))))

-- `decision.caps` as a mapping.
unfoldable caps_fields : Dict ℤ → Fields
caps_fields [] = no_field
caps_fields ((k, n) ∷ caps) = field (some k) (int n) (caps_fields caps)

unfoldable pub risk_json_for : Codec → Decision → Option String
unfolding canonical_json caps_fields
risk_json_for c d = canonical_json c (
    field (some "reason") (text d.reason) (
      field (some "order_hash") (text d.order_hash) (
        field (some "capped") (flag d.capped)
          (field (some "caps") (object (caps_fields d.caps)) no_field))))

-- `approval.kind if approval is not None else ""`
abbrev approval_kind : Option ApprovalRecord → String
approval_kind none = ""
approval_kind (some a) = kind_text a.kind

unfoldable pub approval_json_for : Codec → Decision → Option String
unfolding canonical_json
approval_json_for c d = canonical_json c (
    field (some "approval_id") (text (text_or_empty d.approval_id))
      (field (some "kind") (text (approval_kind d.approval)) no_field))

unfoldable pub consume_key : String → String
consume_key approval_id = "consume|" ⧺ approval_id

unfoldable pub consume_body : EventSource → ApprovalRecord → Body
consume_body source a = approval_recorded (record {
  source = source;
  id = a.id;
  kind = kind_text a.kind;
  approved_by = a.approved_by;
  at = a.at;
  ticket_id = text_or_empty a.ticket_id;
  mint = text_or_empty a.mint;
  size_lamports = or_default a.size_lamports (pos 0);
  token_units = or_default a.token_units (pos 0);
  max_slippage_bps = or_default a.max_slippage_bps (pos 0);
  exit_rule_id = text_or_empty a.exit_rule_id;
  raw_message = a.raw_message;
  consumed = true;
})

-- `_consume_rows`: the key of the approval that the decision consumes, and its row.
unfoldable pub consume_rows :
    EventSource
    → Option String
    → Option ApprovalRecord
    → Option String
    → Option String × List Logged
unfolding consume_key consume_body
consume_rows source exit_reason none id = (none, [])
consume_rows source exit_reason (some a) none = (none, [])
consume_rows source exit_reason (some a) (some id) =
    if str_eq a.approved_by "risk_engine" && not (reason_in exit_reason exit_rule_reasons)
    then (none, [])
    else (some (consume_key id), (consume_key id, consume_body source a) ∷ [])

-- The side's amount, and 0 for the other side.
abbrev buy_amount : Side → Option ℤ → ℤ
buy_amount buy size = or_default size (pos 0)
buy_amount sell size = pos 0

abbrev sell_amount : Side → Option ℤ → ℤ
sell_amount buy units = pos 0
sell_amount sell units = or_default units (pos 0)

unfoldable pub placed_body : Placing → String → String → String → Body
placed_body p quote_json approval_json risk_json = order_placed (record {
  source = p.ledger_source;
  order_id = p.order_id;
  decision_id = p.request.decision_id;
  ticket_id = p.request.ticket_id;
  side = side_text p.request.side;
  mint = p.request.mint;
  slippage_bps = p.request.max_slippage_bps;
  size_lamports = some (buy_amount p.request.side p.request.size_lamports);
  token_units = some (sell_amount p.request.side p.request.token_units);
  quote_json = quote_json;
  approval_json = approval_json;
  risk_json = risk_json;
})

-- What an order's write gives: the ledger with its rows, the end of its placement and the ledger
-- then, or an `IntegrityError`.
pub data Written : Type 0 where
  written : List Logged → Written
  ended : Attempt → List Logged → Written
  conflict : Written

-- The ledger of an order that is written, or the end of its placement.
pub data Submitted : Type 0 where
  sent : List Logged → Submitted
  over : Attempt → List Logged → Submitted

module _ (c : Codec) where
  abbrev pub place_key_of : OrderRequest → String
  place_key_of r = exec_place_key c r.ticket_id (side_text r.side) r.decision_id

  unfoldable pub placed_row : Placing → String → String → String → Logged
  unfolding placed_body exec_place_key
  placed_row p quote_json approval_json risk_json =
      (place_key_of p.request, placed_body p quote_json approval_json risk_json)

  -- Whether a batch that conflicts lost its approval to another order.
  unfoldable pub lost_approval : String → Option String → List Logged → Bool
  unfolding key_taken
  lost_approval place_key none rows = false
  lost_approval place_key (some key) rows = key_taken key rows && not (key_taken place_key rows)

  unfoldable pub lost_detail : Option String → String
  lost_detail id =
      "approval " ⧺ (elim id [ none ↦ "None" | some i ↦ i ]) ⧺ " consumed by a concurrent order"

  -- `_write_order_batch`
  unfoldable pub write_order_batch :
      Placing → List Logged → Option String → Option String → List Logged → Written
  unfolding append_rows lost_approval reject exec_place_key
  write_order_batch p batch consumes approval_id rows = elim (append_rows rows batch) [
    | some rows' ↦ written rows'
    | none ↦
        if lost_approval (place_key_of p.request) consumes rows
        then (let (a, rows') =
              reject p (at_accepted "approval_missing") (lost_detail approval_id) rows in
            ended a rows')
        else conflict
  ]

  -- The write of a decision that passed, given its three texts.
  unfoldable pub write_decided :
      Placing → Decision → Option String → Option String → Option String → List Logged → Written
  unfolding consume_rows placed_row write_order_batch
  write_decided p d (some quote_json) (some approval_json) (some risk_json) rows =
      let (consumes, batch) = consume_rows p.ledger_source p.exit_reason d.approval d.approval_id in
      write_order_batch p (batch ++ placed_row p quote_json approval_json risk_json ∷ []) consumes
        d.approval_id rows
  write_decided p d _ _ _ rows = ended crashed rows

  -- `_append_order_batch`, on the ledger after the engine's re-check, which gave `d`.
  unfoldable pub append_order_batch : Placing → Quote → Decision → List Logged → Written
  unfolding write_decided reject quote_json_for approval_json_for risk_json_for
  append_order_batch p q d rows =
      if d.passed
      then write_decided p d (quote_json_for c p.request q) (approval_json_for c d)
          (risk_json_for c d) rows
      else (let (a, rows') =
            reject p (at_accepted d.reason) "ACCEPTED re-check refused; no order written" rows in
          ended a rows')

  -- `_buy_append_batch` and `_submit_sell`: a conflict gives the outcome of the repeat, or
  -- `in_flight`.
  unfoldable pub submit_order : Placing → Quote → Decision → List Logged → Submitted
  unfolding append_order_batch repeat_outcome exec_place_key
  submit_order p q d rows = elim (append_order_batch p q d rows) [
    | written rows' ↦ sent rows'
    | ended a rows' ↦ over a rows'
    | conflict ↦ elim (repeat_outcome rows (place_key_of p.request)) [
      | some a ↦ over a rows
      | none ↦ over (rejected in_flight) rows
    ]
  ]
