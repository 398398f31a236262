-- ===== src/Execution/Orders/Segments.antt =====
-- What each uninterrupted part of a placement does to the ledger: it leaves it, or appends one batch
-- of rows that have their keys. src/pumpgrok/execution/paper_adapter.
use package.text.Mathlib.TextPositions.{eq_refl}
use pump_grok.Prelude.{
  true, false, not, ◌&&◌, String, Option, none, some, some-injective, List, [], ◌∷◌, ◌++◌, ◌≡◌,
  refl, subst, ◌∙◌, inl, inr, Bool-cases, Option-cases, str_eq, arith,
}
use pump_grok.Ledger.Events.{EventSource}
use pump_grok.Core.Order.{exit_rule_reasons}
use pump_grok.Core.Approval.{ApprovalRecord}
use pump_grok.Core.Idempotency.{Codec}
use pump_grok.Risk.Engine.Model.{reason_in}
use pump_grok.Risk.KillSwitch.Model.{Logged}
use pump_grok.Risk.KillSwitch.Clear.{key_taken}
use pump_grok.Execution.Adapter.Model.{Placing, Refusal, at_accepted}
use pump_grok.Execution.Orders.Journal.{
  Attempt, crashed, rejected, in_flight, by_key, append_rows, reject, reject_key, reject_body,
  repeat_outcome,
}
use pump_grok.Execution.Orders.Batch.{
  Quote, Written, written, ended, conflict, Submitted, sent, over, consume_rows, consume_key,
  consume_body, placed_row, placed_body, place_key_of, lost_approval, lost_detail,
  write_order_batch, write_decided, append_order_batch, submit_order,
}
use pump_grok.Risk.Engine.Decide.{Decision, IsNamed}
use pump_grok.Execution.Orders.Place.{raise_refusal}
use pump_grok.Execution.Orders.Unique.{is_keyed, all_keyed, all_keyed-append}
use pump_grok.Execution.Orders.Sent.{submit_order-IsSent}

-- The ledger after a part of a placement.
pub data Grows (c : Codec) (rows : List Logged) : List Logged → Type 0 where
  same : Grows c rows rows
  grown :
      {rows' : List Logged} (batch : List Logged)
      → all_keyed c batch ≡ true
      → append_rows rows batch ≡ some rows'
      → Grows c rows rows'

key_taken-by_key :
    (rows : List Logged) (k : String) → by_key rows k ≡ none → key_taken k rows ≡ false
unfolding key_taken by_key
key_taken-by_key [] k h = refl
key_taken-by_key ((j, body) ∷ rows) k h = elim (Bool-cases (str_eq j k)) [
  | inl e ↦ let stuck = rw e at h in cc
  | inr e ↦ rw e (key_taken-by_key rows k (rw e at h))
]

module _ (c : Codec) where
  pub reject-Grows :
      (p : Placing) (r : Refusal) (detail : String) (rows : List Logged)
      → Grows c rows (reject p r detail rows).1
  unfolding reject
  reject-Grows p r detail rows = elim (Option-cases (by_key rows (reject_key p r))) [
    | inl e ↦
        rw (reject, e)
          (grown ((reject_key p r, reject_body p r detail) ∷ []) keyed_body
            (one (key_taken-by_key rows _ e)))
    | inr (body, e) ↦ rw (reject, e) same
  ]
    where
      keyed_body : all_keyed c ((reject_key p r, reject_body p r detail) ∷ []) ≡ true
      keyed_body = unfold all_keyed in unfold is_keyed in unfold reject_body in refl

      one :
          key_taken (reject_key p r) rows ≡ false
          → append_rows rows ((reject_key p r, reject_body p r detail) ∷ [])
            ≡ some (rows ++ (reject_key p r, reject_body p r detail) ∷ [])
      one e = unfold append_rows in rw (append_rows, e) refl

  pub raise_refusal-Grows :
      (p : Placing) (r : Refusal) (detail : String) (rows : List Logged)
      → Grows c rows (raise_refusal p r detail rows).1
  unfolding raise_refusal
  raise_refusal-Grows p r detail rows = elim (Bool-cases (str_eq r.reason "confirmation_timeout")) [
    | inl e ↦ rw (raise_refusal, e) (reject-Grows p r detail rows)
    | inr e ↦ rw (raise_refusal, e) (reject-Grows p r detail rows)
  ]

  consume_rows-keyed :
      (source : EventSource) (exit_reason : Option String) (approval : Option ApprovalRecord)
      (id : Option String)
      → ((a : ApprovalRecord) → approval ≡ some a → id ≡ some a.id)
      → all_keyed c (consume_rows source exit_reason approval id).1 ≡ true
  unfolding consume_rows all_keyed is_keyed consume_body
  consume_rows-keyed source exit_reason none id named = refl
  consume_rows-keyed source exit_reason (some a) none named = refl
  consume_rows-keyed source exit_reason (some a) (some id) named =
      let same = some-injective id a.id (named a refl) in
      elim (Bool-cases
        (str_eq a.approved_by "risk_engine" && not (reason_in exit_reason exit_rule_reasons))) [
          | inl e ↦ rw (consume_rows, e) refl
          | inr e ↦ rw (consume_rows, e, same, eq_refl (consume_key a.id)) (ground arith)
        ]

  submit_order-sent-Grows :
      (p : Placing) (q : Quote) (d : Decision) (rows rows' : List Logged)
      → IsNamed d
      → submit_order c p q d rows ≡ sent rows'
      → Grows c rows rows'
  unfolding placed_row all_keyed is_keyed placed_body
  submit_order-sent-Grows p q d rows rows' named h =
      let w = submit_order-IsSent c p q d rows rows' h in
      grown _
        (all_keyed-append c (consume_rows p.ledger_source p.exit_reason d.approval d.approval_id).1
          (placed_row c p w.quote_json w.approval_json w.risk_json ∷ [])
          (consume_rows-keyed p.ledger_source p.exit_reason d.approval d.approval_id named)
          (rw (eq_refl (place_key_of c p.request)) refl))
        w.appended

  ended-Grows :
      (rows : List Logged) (out : Attempt × List Logged) (a : Attempt) (rows' : List Logged)
      → Grows c rows out.1
      → ended out.0 out.1 ≡ ended a rows'
      → Grows c rows rows'
  ended-Grows rows out a rows' g h = subst (Grows c rows) (left_eq out.0 out.1 a rows' h) g
    where
      left_eq :
          (a : Attempt) (xs : List Logged) (b : Attempt) (ys : List Logged)
          → ended a xs ≡ ended b ys
          → xs ≡ ys
      left_eq a xs b ys e = cc

  write_order_batch-ended-Grows :
      (p : Placing) (batch : List Logged) (consumes id : Option String) (rows rows' : List Logged)
      (a : Attempt)
      → write_order_batch c p batch consumes id rows ≡ ended a rows'
      → Grows c rows rows'
  unfolding write_order_batch
  write_order_batch-ended-Grows p batch consumes id rows rows' a h =
      elim (Option-cases (append_rows rows batch)) [
        | inr (left, e) ↦ let stuck = rw (write_order_batch, e) at h in cc
        | inl e ↦ elim (Bool-cases (lost_approval c (place_key_of c p.request) consumes rows)) [
          | inl lost ↦
              let refusal = at_accepted "approval_missing" in
              ended-Grows rows (reject p refusal (lost_detail c id) rows) a rows'
                (reject-Grows p refusal (lost_detail c id) rows)
                (rw (write_order_batch, e, lost) at h)
          | inr kept ↦ let stuck = rw (write_order_batch, e, kept) at h in cc
        ]
      ]

  append_order_batch-ended-Grows :
      (p : Placing) (q : Quote) (d : Decision) (rows rows' : List Logged) (a : Attempt)
      → append_order_batch c p q d rows ≡ ended a rows'
      → Grows c rows rows'
  unfolding append_order_batch
  append_order_batch-ended-Grows p q d rows rows' a h = elim (Bool-cases d.passed) [
    | inl e ↦ decided _ _ _ (rw (append_order_batch, e) at h)
    | inr e ↦
        let text : String = "ACCEPTED re-check refused; no order written" in
        ended-Grows rows (reject p (at_accepted d.reason) text rows) a rows'
          (reject-Grows p (at_accepted d.reason) text rows) (rw (append_order_batch, e) at h)
  ]
    where
      decided :
          (x y z : Option String)
          → write_decided c p d x y z rows ≡ ended a rows'
          → Grows c rows rows'
      decided (some x) (some y) (some z) h =
          unfold write_decided in write_order_batch-ended-Grows p _ _ _ rows rows' a h
      decided none y z h = unfold write_decided in ended-Grows rows (crashed, rows) a rows' same h
      decided (some x) none z h =
          unfold write_decided in ended-Grows rows (crashed, rows) a rows' same h
      decided (some x) (some y) none h =
          unfold write_decided in ended-Grows rows (crashed, rows) a rows' same h

  submit_order-over-Grows :
      (p : Placing) (q : Quote) (d : Decision) (rows rows' : List Logged) (a : Attempt)
      → submit_order c p q d rows ≡ over a rows'
      → Grows c rows rows'
  unfolding submit_order
  submit_order-over-Grows p q d rows rows' a h = by_batch (append_order_batch c p q d rows) refl h
    where
      over_left : {b : Attempt} {xs : List Logged} → over b xs ≡ over a rows' → xs ≡ rows'
      over_left e = cc

      over_ended :
          {b : Attempt} {xs : List Logged} → over b xs ≡ over a rows' → ended b xs ≡ ended a rows'
      over_ended e = cc

      by_repeat :
          (o : Option Attempt)
          → (elim o [ some b ↦ over b rows | none ↦ over (rejected in_flight) rows ]) ≡ over a rows'
          → Grows c rows rows'
      by_repeat (some b) e = subst (Grows c rows) (over_left e) same
      by_repeat none e = subst (Grows c rows) (over_left e) same

      by_batch :
          (w : Written)
          → append_order_batch c p q d rows ≡ w
          → (elim w [
            | written left ↦ sent left
            | ended b left ↦ over b left
            | conflict ↦ elim (repeat_outcome rows (place_key_of c p.request)) [
              | some b ↦ over b rows
              | none ↦ over (rejected in_flight) rows
            ]
          ])
            ≡ over a rows'
          → Grows c rows rows'
      by_batch (written left) e h = cc
      by_batch (ended b left) e h =
          append_order_batch-ended-Grows p q d rows rows' a (e ∙ over_ended h)
      by_batch conflict e h = by_repeat (repeat_outcome rows (place_key_of c p.request)) h

-- The ledger that a submission leaves.
abbrev pub ledger_of : Submitted → List Logged
ledger_of (sent rows) = rows
ledger_of (over a rows) = rows

pub submit_order-Grows :
    (c : Codec) (p : Placing) (q : Quote) (d : Decision) (rows : List Logged)
    → IsNamed d
    → Grows c rows (ledger_of (submit_order c p q d rows))
submit_order-Grows c p q d rows named = by_result (submit_order c p q d rows) refl
  where
    by_result : (o : Submitted) → submit_order c p q d rows ≡ o → Grows c rows (ledger_of o)
    by_result (sent left) e = submit_order-sent-Grows c p q d rows left named e
    by_result (over a left) e = submit_order-over-Grows c p q d rows left a e
