-- ===== src/Risk/Engine/Decide.antt =====
-- `_accept` and `_reject` of src/pumpgrok/risk/engine/core.py: the decision of a walk.
use pump_grok.Prelude.{
  Bool, true, false, String, Option, none, some, ◌≡◌, refl, sym, ap, subst, ◌∙◌, str_eq,
  some-injective, if◌then◌else◌,
}
use pump_grok.Prelude.Int.{ℤ}
use pump_grok.Prelude.Dict.{Dict}
use pump_grok.Core.Order.{OrderRequest}
use pump_grok.Core.Approval.{ApprovalRecord}
use pump_grok.Risk.Claim.{Desk}
use pump_grok.Risk.Engine.Vocabulary.{
  Step, ledger_inconsistent, kill_switch, halted, breaker_open, live_gate, approval_missing,
  approval_mismatch, seat_may_trade, max_trades_per_day, max_open_positions, already_open,
  creator_already_open, max_trade_fraction, max_token_fraction, daily_loss_halt, drawdown_halt,
  data_stale, size_too_small, below_liquidity_floor, Reason, at, reputation_degraded, no_position,
}
use pump_grok.Risk.Engine.Model.{Ask, is_buy, Walk, Outcome, pass, fail, corrupt}

-- `RiskDecision`, without the evaluated rows, the probe flag and the request's own fields. `reason` is
-- "pass" when it passed, and `caps` are the caps by name.
pub record Decision : Type 0 where
  pub passed : Bool
  pub reason : String
  pub order_hash : String
  pub approval_id : Option String
  pub approval : Option ApprovalRecord
  pub size_lamports : Option ℤ
  pub capped : Bool
  pub caps : Dict ℤ

unfoldable pub step_text : Step → String
step_text ledger_inconsistent = "ledger_inconsistent"
step_text kill_switch = "kill_switch"
step_text halted = "halted"
step_text breaker_open = "breaker_open"
step_text live_gate = "live_gate"
step_text approval_missing = "approval_missing"
step_text approval_mismatch = "approval_mismatch"
step_text seat_may_trade = "seat_may_trade"
step_text max_trades_per_day = "max_trades_per_day"
step_text max_open_positions = "max_open_positions"
step_text already_open = "already_open"
step_text creator_already_open = "creator_already_open"
step_text max_trade_fraction = "max_trade_fraction"
step_text max_token_fraction = "max_token_fraction"
step_text daily_loss_halt = "daily_loss_halt"
step_text drawdown_halt = "drawdown_halt"
step_text data_stale = "data_stale"
step_text size_too_small = "size_too_small"
step_text below_liquidity_floor = "below_liquidity_floor"

unfoldable pub reason_text : Reason → String
unfolding step_text
reason_text (at step) = step_text step
reason_text reputation_degraded = "reputation_degraded"
reason_text no_position = "no_position"

-- `ctx.approval_id`: the presented id, until a step finds or mints the approval.
unfoldable pub approval_id_of : OrderRequest → Option ApprovalRecord → Option String
approval_id_of o (some a) = some a.id
approval_id_of o none = if str_eq o.approval_id "" then none else some o.approval_id

unfoldable pub decision_of : String → Ask → Walk → Bool → String → Decision
unfolding approval_id_of
decision_of order_hash a w passed reason = record {
  passed = passed;
  reason = reason;
  order_hash = order_hash;
  approval_id = approval_id_of a.order w.approval;
  approval = w.approval;
  size_lamports = if is_buy a then some w.final_size else none;
  capped = w.capped;
  caps = w.caps;
}

-- The end of `_evaluate`, by the stages' outcome and the claim of a probe, whose `none` is a refusal;
-- `none` is `CorruptState`.
unfoldable pub decide : String → Ask → Outcome Walk → Option (Bool × Desk) → Option Decision
unfolding decision_of reason_text
decide order_hash a corrupt claimed = none
decide order_hash a (fail r w) claimed = some (decision_of order_hash a w false (reason_text r))
decide order_hash a (pass w) none = some (decision_of order_hash a w false "breaker_open")
decide order_hash a (pass w) (some claim) = some (decision_of order_hash a w true "pass")

-- A decision that passed is that of a walk that passed, with the walk's size and approval.
pub decide-passed :
    (order_hash : String) (a : Ask) (o : Outcome Walk) (claimed : Option (Bool × Desk))
    (d : Decision)
    → decide order_hash a o claimed ≡ some d
    → d.passed ≡ true
    → (w : Walk) × (o ≡ pass w)
      × (d.size_lamports ≡ (if is_buy a then some w.final_size else none))
      × (d.approval ≡ w.approval)
unfolding decide decision_of
decide-passed order_hash a corrupt claimed d h passed = cc
decide-passed order_hash a (fail r w) claimed d h passed =
    let stuck = ap (λ x. x.passed) (some-injective _ d h) ∙ passed in cc
decide-passed order_hash a (pass w) none d h passed =
    let stuck = ap (λ x. x.passed) (some-injective _ d h) ∙ passed in cc
decide-passed order_hash a (pass w) (some claim) d h passed =
    let same = some-injective (decision_of order_hash a w true "pass") d h in
    (w, refl, ap (λ x. x.size_lamports) (sym same), ap (λ x. x.approval) (sym same))

-- A decision that has an approval names it.
abbrev pub IsNamed : Decision → Type 0
IsNamed d = (a : ApprovalRecord) → d.approval ≡ some a → d.approval_id ≡ some a.id

pub decision_of-IsNamed :
    (order_hash : String) (a : Ask) (w : Walk) (passed : Bool) (reason : String)
    → IsNamed (decision_of order_hash a w passed reason)
unfolding decision_of approval_id_of
decision_of-IsNamed order_hash a w passed reason b approved = ap (approval_id_of a.order) approved

-- The engine's decisions do.
pub decide-IsNamed :
    (order_hash : String) (a : Ask) (o : Outcome Walk) (claimed : Option (Bool × Desk))
    (d : Decision)
    → decide order_hash a o claimed ≡ some d
    → IsNamed d
unfolding decide
decide-IsNamed order_hash a corrupt claimed d h = cc
decide-IsNamed order_hash a (fail r w) claimed d h =
    subst IsNamed (some-injective _ d h) (decision_of-IsNamed order_hash a w false (reason_text r))
decide-IsNamed order_hash a (pass w) none d h =
    subst IsNamed (some-injective _ d h) (decision_of-IsNamed order_hash a w false "breaker_open")
decide-IsNamed order_hash a (pass w) (some claim) d h =
    subst IsNamed (some-injective _ d h) (decision_of-IsNamed order_hash a w true "pass")
