-- ===== src/Execution/Orders/Spent.antt =====
-- An approval that an order consumed: the write of src/pumpgrok/execution/paper_adapter against the
-- engine's approval step.
use pump_grok.Prelude.{
  Bool, false, ◌||◌, String, Option, none, some, List, [], ◌∷◌, ◌++◌, ◌≡◌, refl, sym, ap, ◌∙◌, inl,
  inr, Bool-cases, str_eq, arith,
}
use pump_grok.Prelude.Dict.{lookup}
use pump_grok.Ledger.Events.{EventSource}
use pump_grok.Core.Approval.{ApprovalRecord}
use pump_grok.Core.Idempotency.{Codec}
use pump_grok.Risk.KillSwitch.Model.{Logged}
use pump_grok.Prelude.Lists.{drop}
use pump_grok.Risk.Claim.{Desk}
use pump_grok.Risk.Engine.Vocabulary.{
  ledger_inconsistent, kill_switch, halted, breaker_open, live_gate, approval_missing, at,
  system_exit_reasons, step_ids, accepted,
}
use pump_grok.Risk.Engine.Walk.{run_step, skip_step, walk_steps, evaluate}
use pump_grok.Risk.Engine.Inversion.{>>=-eq-pass, walk_steps-run, walk_steps-append}
use pump_grok.Risk.Engine.Model.{Engine, Ask, Walk, pass, fail, reason_in}
use pump_grok.Risk.Engine.Approvals.{is_autonomous, presented, step_approval_missing}
use pump_grok.Risk.Engine.Journal.{approvals_of}
use pump_grok.Risk.Engine.Consumed.{mentions, approvals_of-consumed}
use pump_grok.Execution.Adapter.Model.{Placing}
use pump_grok.Execution.Orders.Batch.{
  Quote, sent, consume_rows, consume_key, consume_body, placed_row, placed_body, submit_order,
}
use pump_grok.Risk.Engine.Decide.{Decision, decide, decide-passed}
use pump_grok.Execution.Orders.Keys.{append_rows-eq, append_assoc}
use pump_grok.Execution.Orders.Sent.{IsSent, submit_order-IsSent}

consume_rows-human :
    (source : EventSource) (exit_reason : Option String) (a : ApprovalRecord)
    → str_eq a.approved_by "risk_engine" ≡ false
    → (consume_rows source exit_reason (some a) (some a.id)).1
      ≡ (consume_key a.id, consume_body source a) ∷ []
unfolding consume_rows
consume_rows-human source exit_reason a human = rw (consume_rows, human) refl

module _ (c : Codec) where
  spent-lookup :
      (is_valid : ApprovalRecord → Bool) (p : Placing) (d : Decision) (a : ApprovalRecord)
      (rows rows' more : List Logged)
      → IsSent c p d rows rows'
      → d.approval ≡ some a
      → d.approval_id ≡ some a.id
      → str_eq a.approved_by "risk_engine" ≡ false
      → str_eq a.id "" ≡ false
      → mentions a.id more ≡ false
      → lookup a.id (approvals_of is_valid (rows' ++ more)) ≡ none
  unfolding consume_body placed_row placed_body mentions
  spent-lookup is_valid p d a rows rows' more w approved presented_id human named quiet =
      let placed = placed_row c p w.quote_json w.approval_json w.risk_json in
      let consume : Logged = (consume_key a.id, consume_body p.ledger_source a) in
      let batch : (consume_rows p.ledger_source p.exit_reason d.approval d.approval_id).1
          ≡ consume ∷ [] =
        ap (λ x. (consume_rows p.ledger_source p.exit_reason x d.approval_id).1) approved
        ∙ ap (λ x. (consume_rows p.ledger_source p.exit_reason (some a) x).1) presented_id
        ∙ consume_rows-human p.ledger_source p.exit_reason a human in
      let grown = append_rows-eq rows _ rows' w.appended in
      ap (λ x. lookup a.id (approvals_of is_valid (x ++ more)))
        (grown ∙ ap (λ x. rows ++ (x ++ placed ∷ [])) batch)
      ∙ ap (λ x. lookup a.id (approvals_of is_valid x))
          (append_assoc rows (consume ∷ placed ∷ []) more)
      ∙ approvals_of-consumed is_valid rows (placed ∷ more) (consume_key a.id) _ named refl quiet

  -- The approval step refuses an order whose approval the engine does not have.
  step_approval_missing-absent :
      (e : Engine) (ask : Ask) (w : Walk)
      → lookup ask.order.approval_id ask.approvals ≡ none
      → reason_in ask.exit_reason system_exit_reasons || is_autonomous e.autonomy ≡ false
      → step_approval_missing e ask w ≡ fail (at approval_missing) w
  unfolding step_approval_missing presented
  step_approval_missing-absent e ask w gone manual =
      elim (Bool-cases (str_eq ask.order.approval_id "")) [
        | inl empty ↦ rw (manual, empty) refl
        | inr given ↦ rw (manual, given, gone) refl
      ]

  -- And so does the walk at ACCEPTED.
  evaluate-absent :
      (e : Engine) (ask : Ask) (w d : Walk)
      → ask.stage ≡ accepted
      → lookup ask.order.approval_id ask.approvals ≡ none
      → reason_in ask.exit_reason system_exit_reasons || is_autonomous e.autonomy ≡ false
      → evaluate e ask w ≡ pass d
      → ⊥
  unfolding evaluate run_step skip_step
  evaluate-absent e ask w d stage gone manual h =
      let (end, walked, _) = >>=-eq-pass (walk_steps e ask step_ids w) _ h in
      let (w5, _, rest) =
        walk_steps-append e ask
          (ledger_inconsistent ∷ kill_switch ∷ halted ∷ breaker_open ∷ live_gate ∷ [])
          (drop 5 step_ids) w end walked in
      let (w6, ran, _) =
        walk_steps-run e ask approval_missing (drop 6 step_ids) w5 end (rw stage (ground arith))
          rest in
      let refused = sym (step_approval_missing-absent e ask w5 gone manual) ∙ ran in cc

  -- Once an order was written under an approval that has an id, which the decision names, and that is
  -- not the engine's own, no later check at ACCEPTED of an order that presents that approval passes,
  -- as long as no later row mentions it: for any seat and order, buy or sell, and whatever the walk
  -- begins with, on a desk without paper autonomy, unless the exit reason is the system's own. (The
  -- re-check at CONFIRMING is of an order that is written, and asks for no approval.)
  pub submit_order-spent :
      (is_valid : ApprovalRecord → Bool) (p : Placing) (q : Quote) (d : Decision)
      (a : ApprovalRecord) (rows rows' more : List Logged) (e : Engine) (ask : Ask) (w : Walk)
      (order_hash : String) (claimed : Option (Bool × Desk)) (again : Decision)
      → submit_order c p q d rows ≡ sent rows'
      → d.approval ≡ some a
      → d.approval_id ≡ some a.id
      → str_eq a.approved_by "risk_engine" ≡ false
      → str_eq a.id "" ≡ false
      → mentions a.id more ≡ false
      → ask.stage ≡ accepted
      → ask.approvals ≡ approvals_of is_valid (rows' ++ more)
      → ask.order.approval_id ≡ a.id
      → reason_in ask.exit_reason system_exit_reasons || is_autonomous e.autonomy ≡ false
      → decide order_hash ask (evaluate e ask w) claimed ≡ some again
      → again.passed ≡ false
  submit_order-spent is_valid p q d a rows rows' more e ask w order_hash claimed again written
        approved id human named quiet stage read presents manual decided =
      let gone =
        ap (λ x. lookup x ask.approvals) presents
        ∙ ap (lookup a.id) read
        ∙ spent-lookup is_valid p d a rows rows' more
            (submit_order-IsSent c p q d rows rows' written) approved id human named quiet in
      elim (Bool-cases again.passed) [
        | inr failed ↦ failed
        | inl passed ↦
            let (end, walked, sized, approved) =
              decide-passed order_hash ask (evaluate e ask w) claimed again decided passed in
            absurd (evaluate-absent e ask w end stage gone manual walked)
      ]
