-- ===== src/Execution/Orders/OnLedger.antt =====
-- A written order and its settlement on the ledger: src/pumpgrok/execution/paper_adapter.
use package.text.Mathlib.TextPositions.{eq_refl}
use pump_grok.Prelude.{
  ℕ, suc, ◌+◌, true, not, ◌&&◌, String, Option, none, some, List, [], ◌∷◌, ◌++◌, ◌≡◌, refl, sym, ap,
  subst, ◌∙◌, inl, inr, Bool-cases, arith, str_eq,
}
use pump_grok.Prelude.Lists.{length}
use pump_grok.Ledger.Events.{EventSource, Body, FillRecorded, fill_recorded}
use pump_grok.Core.Order.{exit_rule_reasons}
use pump_grok.Core.Approval.{ApprovalRecord}
use pump_grok.Core.Idempotency.{Codec}
use pump_grok.Risk.Engine.Model.{reason_in}
use pump_grok.Risk.KillSwitch.Model.{Logged}
use pump_grok.Execution.Adapter.Model.{Placing}
use pump_grok.Execution.Orders.Journal.{
  filled, by_key, append_rows, stored_fill, outcome_at, first_outcome, order_id_of, repeat_outcome,
}
use pump_grok.Execution.Orders.Batch.{
  place_key_of, consume_rows, consume_body, placed_row, placed_body,
}
use pump_grok.Risk.Engine.Decide.{Decision}
use pump_grok.Execution.Orders.Sizing.{Settlement}
use pump_grok.Execution.Orders.Place.{keyed, settlement_key}
use pump_grok.Execution.Orders.Keys.{
  append_rows-eq, append_rows-split, append_rows-fresh, by_key-fresh, by_key-kept, is_open_order,
  is_open_order-append, first_outcome-open, repeat_outcome-kept, append_nil,
}
use pump_grok.Execution.Orders.Sent.{IsSent}
use pump_grok.Execution.Orders.Settled.{IsRecorded}

consume_rows-open :
    (id : String) (source : EventSource) (exit_reason : Option String) (a : Option ApprovalRecord)
    (approval_id : Option String)
    → is_open_order id (consume_rows source exit_reason a approval_id).1 ≡ true
unfolding consume_rows is_open_order outcome_at consume_body
consume_rows-open id source exit_reason none approval_id = refl
consume_rows-open id source exit_reason (some a) none = refl
consume_rows-open id source exit_reason (some a) (some approval_id) =
    elim (Bool-cases
      (str_eq a.approved_by "risk_engine" && not (reason_in exit_reason exit_rule_reasons))) [
        | inl e ↦ rw (consume_rows, e) refl
        | inr e ↦ rw (consume_rows, e) refl
      ]

row_at :
    (id : String) (n : ℕ) (row : FillRecorded) (rest : List Body)
    → str_eq row.order_id id ≡ true
    → first_outcome id n (keyed id (fill_recorded row ∷ rest))
      ≡ some (filled (stored_fill id n row))
unfolding keyed settlement_key first_outcome outcome_at
row_at id n row rest e = rw (first_outcome, e) refl

-- A fill row settles its order where no row before it does.
fill-settles :
    (id : String) (before : List Logged) (t : Settlement) (w : IsRecorded id t)
    → is_open_order id before ≡ true
    → first_outcome id 1 (before ++ keyed id t.bodies)
      ≡ some (filled (t.fill (suc (length before))))
fill-settles id before t w still =
    first_outcome-open id 1 before (keyed id t.bodies) still
    ∙ ap (λ bodies. first_outcome id (1 + length before) (keyed id bodies)) w.bodies_eq
    ∙ row_at id (1 + length before) w.row w.rest (ap (λ x. str_eq x id) w.order ∙ eq_refl id)
    ∙ ap (λ f. some (filled f))
        (ap (λ n. stored_fill id n w.row) (omega arith) ∙ sym (w.read_back (suc (length before))))

module _ (c : Codec) where
  -- The ledger of a written order, and its place key on it.
  placed-by_key :
      (p : Placing) (d : Decision) (rows rows' : List Logged) (w : IsSent c p d rows rows')
      → by_key rows' (place_key_of c p.request)
        ≡ some (placed_body p w.quote_json w.approval_json w.risk_json)
  unfolding placed_row by_key
  placed-by_key p d rows rows' w =
      let consumes = (consume_rows p.ledger_source p.exit_reason d.approval d.approval_id).1 in
      let order = placed_row c p w.quote_json w.approval_json w.risk_json in
      let grown = append_rows-split rows consumes (order ∷ []) rows' w.appended in
      let fresh = append_rows-fresh (rows ++ consumes) order.0 order.1 [] rows' grown in
      ap (λ x. by_key x (place_key_of c p.request))
        (append_rows-eq (rows ++ consumes) (order ∷ []) rows' grown)
      ∙ by_key-fresh (rows ++ consumes) (order ∷ []) (place_key_of c p.request) fresh
      ∙ rw (eq_refl (place_key_of c p.request)) refl

  sent-open :
      (p : Placing) (d : Decision) (rows rows' : List Logged) (w : IsSent c p d rows rows')
      → is_open_order p.order_id rows ≡ true
      → is_open_order p.order_id rows' ≡ true
  unfolding placed_row is_open_order outcome_at placed_body
  sent-open p d rows rows' w still =
      let consumes = (consume_rows p.ledger_source p.exit_reason d.approval d.approval_id).1 in
      let order = placed_row c p w.quote_json w.approval_json w.risk_json in
      subst (λ x. is_open_order p.order_id x ≡ true)
        (sym (append_rows-eq rows (consumes ++ order ∷ []) rows' w.appended))
        (is_open_order-append p.order_id rows (consumes ++ order ∷ []) still (
          is_open_order-append p.order_id consumes (order ∷ [])
            (consume_rows-open p.order_id p.ledger_source p.exit_reason d.approval d.approval_id)
            refl))

  -- A written order whose settlement is on the ledger is what its place key repeats.
  pub settled-repeats :
      (p : Placing) (d : Decision) (rows left others rows' : List Logged) (t : Settlement)
      → IsSent c p d rows left
      → IsRecorded p.order_id t
      → is_open_order p.order_id rows ≡ true
      → is_open_order p.order_id others ≡ true
      → append_rows (left ++ others) (keyed p.order_id t.bodies) ≡ some rows'
      → repeat_outcome rows' (place_key_of c p.request)
        ≡ some (filled (t.fill (suc (length (left ++ others)))))
  unfolding placed_body order_id_of
  settled-repeats p d rows left others rows' t w written still others_still h =
      let key = place_key_of c p.request in
      let bodies = keyed p.order_id t.bodies in
      let before = left ++ others in
      let order = placed_body p w.quote_json w.approval_json w.risk_json in
      let found =
        by_key-kept before bodies key order
          (by_key-kept left others key order (placed-by_key p d rows left w)) in
      let settled = fill-settles p.order_id before t written (
        is_open_order-append p.order_id left others (sent-open p d rows left w still)
          others_still) in
      subst (λ x. repeat_outcome x key ≡ some (filled (t.fill (suc (length before)))))
        (append_nil (before ++ bodies) ∙ sym (append_rows-eq before bodies rows' h))
        (repeat_outcome-kept (before ++ bodies) [] key order _ found settled)
