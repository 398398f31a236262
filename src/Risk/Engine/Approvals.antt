-- ===== src/Risk/Engine/Approvals.antt =====
-- The approval and seat steps of src/pumpgrok/risk/engine/steps.py.
use Prim.Native.String.{◌++◌ as str_append}
use pump_grok.Prelude.{
  Bool, true, false, not, ◌&&◌, ◌||◌, String, Option, none, some, str_eq, if◌then◌else◌,
}
use pump_grok.Prelude.Dict.{lookup}
use pump_grok.Prelude.Lists.{contains}
use pump_grok.Core.Order.{Side, buy, sell, OrderRequest, is_buy_side, same_text, exit_rule_reasons}
use pump_grok.Core.Approval.{
  Kind, human_buy, human_sell, exit_rule, autonomous_paper, ApprovalRecord, matches,
}
use pump_grok.Risk.Engine.Vocabulary.{
  approval_missing, approval_mismatch, seat_may_trade, at, Autonomy, manual_ticket,
  autonomous_paper_level, buy_seat, sell_seat, system_exit_reasons,
}
use pump_grok.Risk.Engine.Model.{
  Engine, Ask, is_buy, Walk, Outcome, pass, fail, refuse_if, reason_in,
}

-- `exit_reason or 'exit'`
abbrev reason_text : Option String → String
reason_text none = "exit"
reason_text (some r) = if str_eq r "" then "exit" else r

unfoldable pub autonomous_message : OrderRequest → Option String → String
autonomous_message o exit_reason =
    if is_buy_side o.side
    then str_append "autonomous-paper buy " (str_append o.ticket_id (str_append " " o.mint))
    else str_append "autonomous-paper sell "
        (str_append (reason_text exit_reason) (str_append " " o.mint))

-- `_mint_autonomous`
unfoldable pub mint_autonomous : Engine → OrderRequest → Option String → ApprovalRecord
mint_autonomous e o exit_reason = record {
  id = e.fresh_id;
  kind = autonomous_paper;
  ticket_id = some o.ticket_id;
  mint = some o.mint;
  size_lamports =
      if is_buy_side o.side
      then o.size_lamports
      else elim o.token_units [ none ↦ o.size_lamports | some u ↦ none ];
  token_units = if is_buy_side o.side then none else o.token_units;
  max_slippage_bps = some o.max_slippage_bps;
  exit_rule_id =
      if is_buy_side o.side
      then none
      else if reason_in exit_reason exit_rule_reasons
      then exit_reason
      else none;
  approved_by = "risk_engine";
  raw_message = autonomous_message o exit_reason;
  at = e.now_iso;
  consumed = false;
}

abbrev is_wanted : Side → Kind → Bool
is_wanted buy human_buy = true
is_wanted sell human_sell = true
is_wanted sell exit_rule = true
is_wanted _ _ = false

abbrev is_exit_rule : Kind → Bool
is_exit_rule exit_rule = true
is_exit_rule _ = false

-- The presented approval, if it names the order's ticket.
unfoldable pub presented : Ask → Option ApprovalRecord → Walk → Outcome Walk
presented a none w = fail (at approval_missing) w
presented a (some r) w =
    if same_text r.ticket_id (some a.order.ticket_id)
    then pass (record w { approval = some r })
    else fail (at approval_missing) w

abbrev pub is_autonomous : Autonomy → Bool
is_autonomous manual_ticket = false
is_autonomous autonomous_paper_level = true

unfoldable pub step_approval_missing : Engine → Ask → Walk → Outcome Walk
unfolding presented contains
step_approval_missing e a w =
    if reason_in a.exit_reason system_exit_reasons || is_autonomous e.autonomy
    then pass (record w { approval = some (mint_autonomous e a.order a.exit_reason) })
    else if str_eq a.order.approval_id ""
    then fail (at approval_missing) w
    else presented a (lookup a.order.approval_id a.approvals) w

-- The approval that the walk carries against the order.
unfoldable pub mismatch : Ask → ApprovalRecord → Bool
unfolding contains
mismatch a r =
    not (str_eq r.approved_by "risk_engine")
    && ((is_exit_rule r.kind
          && reason_in a.exit_reason exit_rule_reasons
          && not (same_text r.exit_rule_id a.exit_reason))
        || not (is_wanted a.order.side r.kind)
        || not (matches r a.order))

unfoldable pub step_approval_mismatch : Ask → Option ApprovalRecord → Walk → Outcome Walk
unfolding mismatch
step_approval_mismatch a none w = fail (at approval_mismatch) w
step_approval_mismatch a (some r) w = refuse_if (mismatch a r) (at approval_mismatch) w

abbrev is_flatten : Option String → Bool
is_flatten none = false
is_flatten (some r) = str_eq r "kill_flatten"

abbrev is_engine_approved : Option ApprovalRecord → Bool
is_engine_approved none = false
is_engine_approved (some r) = str_eq r.approved_by "risk_engine"

-- The acting seat against the latches and the side's seat.
unfoldable pub may_not_trade : Engine → Ask → Option String → Bool
unfolding contains
may_not_trade e a none = true
may_not_trade e a (some acting) =
    contains acting e.observe_only
    || (contains "bot-02-risk" e.observe_only && is_buy a)
    || (contains "bot-06-exit" e.observe_only && is_buy a)
    || not (str_eq acting (if is_buy a then buy_seat else sell_seat))

abbrev acting_seat : Engine → Ask → Option String
acting_seat e a = elim a.seat [ none ↦ e.calling_seat | some s ↦ some s ]

unfoldable pub step_seat_may_trade : Engine → Ask → Walk → Outcome Walk
unfolding may_not_trade
step_seat_may_trade e a w =
    if is_flatten a.exit_reason && is_engine_approved w.approval
    then pass w
    else refuse_if (may_not_trade e a (acting_seat e a)) (at seat_may_trade) w
