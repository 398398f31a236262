-- ===== src/Execution/Orders/SendTests.antt =====
-- Two submissions of a decision, a spent approval, and calls that leave.
use pump_grok.Prelude.{
  ℕ, ◌≤◌, true, false, String, none, some, Option, Bool, List, [], ◌++◌, ◌≡◌, refl,
}
use pump_grok.Prelude.Int.{pos}
use pump_grok.Prelude.Lists.{contains}
use pump_grok.Core.Json.{normalize}
use pump_grok.Core.Idempotency.{canonical_json}
use pump_grok.Risk.KillSwitch.Model.{Logged, joined}
use pump_grok.Risk.KillSwitch.Clear.{key_taken}
use pump_grok.Execution.Orders.Journal.{append_rows}
use pump_grok.Execution.Orders.Batch.{
  Quote, sent, consume_rows, consume_body, placed_body, submit_order, append_order_batch,
  write_decided, write_order_batch, placed_row, quote_json_for, approval_json_for, risk_json_for,
}
use pump_grok.Execution.Orders.Unique.{count_orders, count_spends}
use pump_grok.Execution.Orders.Segments.{ledger_of}
use pump_grok.Execution.Orders.Single.{empty, later, submits, Reach-single_send}
use pump_grok.Execution.Orders.Spent.{submit_order-spent}
use pump_grok.Execution.Orders.Calls.{Calls, register, leave, update}
use pump_grok.Execution.Orders.Drain
use pump_grok.Execution.Orders.Drain.{no_calls, Reach-drains}
use pump_grok.Risk.Engine.Vocabulary.{accepted, paper as mode_paper, manual_ticket}
use pump_grok.Risk.Engine.Model.{Engine, Ask, Walk, pass}
use pump_grok.Risk.Engine.Approvals.{step_approval_missing, presented}
use pump_grok.Risk.Engine.Walk.{
  evaluate, walk_steps, skip_step, run_step, step_breaker_open, step_live_gate,
}
use pump_grok.Risk.Engine.Journal.{
  approvals_of, latest_approvals, note_approval, usable_approvals, usable_approval,
  approval_of_kind, parse_kind,
}
use pump_grok.Risk.Engine.Decide.{
  Decision, decide, decision_of, approval_id_of, reason_text, step_text,
}
use pump_grok.Risk.Claim.{Desk}
use pump_grok.Prelude.Dict.{lookup, insert}
use pump_grok.Ledger.State.{initial_state}
use pump_grok.Execution.Orders.GatedTests.{desk}
use pump_grok.Risk.Engine.Consumed.{mentions}
use pump_grok.Execution.Orders.Tests.{
  genesis, codec, one, venue, request, placing, approval, decision, describe,
}

abbrev quote : Quote
quote = record { id = "Q1"; out0 = pos 5; threshold = pos 4; impact = one }

-- Two calls submit the same decision, one after the other.
abbrev once : List Logged
once = ledger_of (submit_order codec (placing "O1" (pos 5)) quote decision [])

abbrev twice : List Logged
twice = ledger_of (submit_order codec (placing "O2" (pos 5)) quote decision once)

once-sent : submit_order codec (placing "O1" (pos 5)) quote decision [] ≡ sent once
unfolding submit_order append_order_batch write_decided write_order_batch quote_json_for
    approval_json_for risk_json_for canonical_json normalize consume_rows placed_row append_rows
    key_taken joined
once-sent = refl

-- Another order of the same ticket presents the approval again.
abbrev asking : Ask
asking = record {
  order = record (request (pos 7)) { decision_id = "D2" };
  seat = some "bot-04-sniper";
  exit_reason = none;
  creator = none;
  stage = accepted;
  is_exit_sell = false;
  kill = false;
  open_breakers = [];
  half_blocked = false;
  killed = [];
  approvals = approvals_of (λ a. true) (once ++ []);
}

abbrev walk : Walk
walk = record {
  state = genesis [];
  equity = pos 10_000_000_000;
  approval = none;
  final_size = pos 7;
  caps = [];
  capped = false;
  rows = [];
}

abbrev manual : Engine
manual = record {
  mode = mode_paper;
  autonomy = manual_ticket;
  max_trade_fraction = one;
  max_token_fraction = one;
  daily_loss_halt_fraction = one;
  max_open_positions = pos 3;
  max_trades_per_day = pos 20;
  liquidity_floor_multiple = pos 20;
  min_trade_lamports = pos 1;
  one_position_per_creator = true;
  realized_basis = false;
  mtm_interval_s = pos 60;
  observe_only = [];
  is_degraded = false;
  unmet_live = [];
  calling_seat = none;
  is_verified = true;
  is_cleared_today = false;
  store_fold = λ rows. genesis [];
  drawdown_reached = λ peak equity. false;
  mark_age = λ ts. pos 0;
  reserves = λ mint. none;
  creator_of = λ mint s. "";
  fresh_id = "F1";
  now_iso = "t";
}

-- The walk that the decision ends.
abbrev approved : Walk
approved = record walk { approval = some approval; final_size = pos 1_000_000_000 }

abbrev granted : Option (Bool × Desk)
granted = some (false, desk)

decided : decide "decision" asking (pass approved) granted ≡ some decision
unfolding decide decision_of approval_id_of
decided = refl

Reach-single_send_example : (count_orders "T1" "buy" "D1" twice ≤ 1) × (count_spends "A1" twice ≤ 1)
Reach-single_send_example = Reach-single_send codec venue describe "T1" "buy" "D1" "A1" (
    later
      (later empty (
        submits (placing "O1" (pos 5)) quote "decision" asking (pass approved) granted decision
          decided))
      (submits (placing "O2" (pos 5)) quote "decision" asking (pass approved) granted decision
        decided))

-- The second check stops at the approval step.
abbrev refused : Decision
refused = decision_of "H" asking walk false "approval_missing"

refuses : decide "H" asking (evaluate manual asking walk) none ≡ some refused
unfolding decide decision_of approval_id_of evaluate walk_steps skip_step run_step step_breaker_open
    step_live_gate step_approval_missing presented contains lookup approvals_of latest_approvals
    note_approval usable_approvals usable_approval approval_of_kind parse_kind insert reason_text
    step_text initial_state submit_order append_order_batch write_decided write_order_batch
    quote_json_for approval_json_for risk_json_for canonical_json normalize consume_rows
    consume_body placed_row placed_body append_rows key_taken joined
refuses = refl

submit_order-spent_example : refused.passed ≡ false
unfolding mentions contains
submit_order-spent_example =
    submit_order-spent codec (λ a. true) (placing "O1" (pos 5)) quote decision approval [] once []
      manual asking walk "H" none refused once-sent refl refl refl refl refl refl refl refl refl
      refuses

-- Two orders in flight; the first call leaves, and then the second.
abbrev both_in : Calls
both_in = register (register no_calls 1 "O1") 2 "O2"

abbrev both_out : Calls
both_out = leave (leave both_in false "K1" 1) false "K2" 2

drained : Drain.Reach both_out
unfolding update register
drained =
    Drain.after
      (Drain.after
        (Drain.after (Drain.after Drain.start (Drain.registers 1 "O1" refl))
          (Drain.registers 2 "O2" refl))
        (Drain.leaves false "K1" 1))
      (Drain.leaves false "K2" 2)

Reach-drains_example :
    ((order_id : String)
      → contains order_id both_out.inflight ≡ true
      → (owner : ℕ) × (both_out.owned owner ≡ some order_id))
    × (((owner : ℕ) → both_out.owned owner ≡ none) → both_out.inflight ≡ [])
Reach-drains_example = Reach-drains drained
