-- ===== src/Execution/Orders/Sent.antt =====
-- What the write of an order leaves: batch_stages.py of src/pumpgrok/execution/paper_adapter.
use pump_grok.Prelude.{
  true, String, Option, none, some, List, [], ◌∷◌, ◌++◌, ◌≡◌, refl, ap, ◌∙◌, inl, inr, Bool-cases,
  Option-cases,
}
use pump_grok.Core.Idempotency.{Codec}
use pump_grok.Risk.KillSwitch.Model.{Logged}
use pump_grok.Execution.Adapter.Model.{Placing}
use pump_grok.Execution.Orders.Journal.{Attempt, rejected, in_flight, append_rows, repeat_outcome}
use pump_grok.Execution.Orders.Batch.{
  Quote, Written, written, ended, conflict, sent, over, consume_rows, placed_row, place_key_of,
  lost_approval, write_order_batch, write_decided, append_order_batch, submit_order,
}
use pump_grok.Risk.Engine.Decide.{Decision}

written-injective : (a b : List Logged) → written a ≡ written b → a ≡ b
written-injective a b e = cc

pub sent-injective : (a b : List Logged) → sent a ≡ sent b → a ≡ b
sent-injective a b e = cc

-- The rows that an order's write adds: those that consume its approval, and its own.
pub record IsSent (c : Codec) (p : Placing) (d : Decision) (rows rows' : List Logged) : Type 0 where
  pub passed : d.passed ≡ true
  pub quote_json : String
  pub approval_json : String
  pub risk_json : String
  pub appended :
      append_rows rows (
        (consume_rows p.ledger_source p.exit_reason d.approval d.approval_id).1
        ++ placed_row c p quote_json approval_json risk_json ∷ [])
      ≡ some rows'

module _ (c : Codec) where
  write_order_batch-written :
      (p : Placing) (batch : List Logged) (consumes id : Option String) (rows rows' : List Logged)
      → write_order_batch c p batch consumes id rows ≡ written rows'
      → append_rows rows batch ≡ some rows'
  unfolding write_order_batch
  write_order_batch-written p batch consumes id rows rows' h =
      elim (Option-cases (append_rows rows batch)) [
        | inr (grown, e) ↦
            e ∙ ap some (written-injective grown rows' (rw (write_order_batch, e) at h))
        | inl e ↦ elim (Bool-cases (lost_approval c (place_key_of c p.request) consumes rows)) [
          | inl lost ↦ let stuck = rw (write_order_batch, e, lost) at h in cc
          | inr kept ↦ let stuck = rw (write_order_batch, e, kept) at h in cc
        ]
      ]

  write_decided-IsSent :
      (p : Placing) (d : Decision) (q a r : Option String) (rows rows' : List Logged)
      → d.passed ≡ true
      → write_decided c p d q a r rows ≡ written rows'
      → IsSent c p d rows rows'
  unfolding write_decided
  write_decided-IsSent p d (some q) (some a) (some r) rows rows' passed h = record {
    passed = passed;
    quote_json = q;
    approval_json = a;
    risk_json = r;
    appended = write_order_batch-written p _ _ _ rows rows' h;
  }
  write_decided-IsSent p d none a r rows rows' passed h = cc
  write_decided-IsSent p d (some q) none r rows rows' passed h = cc
  write_decided-IsSent p d (some q) (some a) none rows rows' passed h = cc

  append_order_batch-IsSent :
      (p : Placing) (q : Quote) (d : Decision) (rows rows' : List Logged)
      → append_order_batch c p q d rows ≡ written rows'
      → IsSent c p d rows rows'
  unfolding append_order_batch
  append_order_batch-IsSent p q d rows rows' h = elim (Bool-cases d.passed) [
    | inl e ↦ write_decided-IsSent p d _ _ _ rows rows' e (rw e at h)
    | inr e ↦ let stuck = rw e at h in cc
  ]

  -- An order is written only if the re-check passed it, and then its rows were appended as one batch.
  pub submit_order-IsSent :
      (p : Placing) (q : Quote) (d : Decision) (rows rows' : List Logged)
      → submit_order c p q d rows ≡ sent rows'
      → IsSent c p d rows rows'
  unfolding submit_order
  submit_order-IsSent p q d rows rows' h = by_batch (append_order_batch c p q d rows) refl h
    where
      by_repeat :
          (o : Option Attempt)
          → (elim o [ some a ↦ over a rows | none ↦ over (rejected in_flight) rows ]) ≡ sent rows'
          → IsSent c p d rows rows'
      by_repeat (some a) e = cc
      by_repeat none e = cc

      by_batch :
          (w : Written)
          → append_order_batch c p q d rows ≡ w
          → (elim w [
            | written rows' ↦ sent rows'
            | ended a rows' ↦ over a rows'
            | conflict ↦ elim (repeat_outcome rows (place_key_of c p.request)) [
              | some a ↦ over a rows
              | none ↦ over (rejected in_flight) rows
            ]
          ])
            ≡ sent rows'
          → IsSent c p d rows rows'
      by_batch (written grown) e h =
          append_order_batch-IsSent p q d rows rows' (e ∙ ap written (sent-injective grown rows' h))
      by_batch (ended a grown) e h = cc
      by_batch conflict e h = by_repeat (repeat_outcome rows (place_key_of c p.request)) h
