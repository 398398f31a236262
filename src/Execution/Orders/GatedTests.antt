-- ===== src/Execution/Orders/GatedTests.antt =====
-- A buy under the decision of the engine's tests, on an empty ledger.
use pump_grok.Prelude.{true, false, none, some, List, [], ◌≡◌, refl, ap, ◌∙◌}
use pump_grok.Prelude.Int.{ℤ, pos}
use pump_grok.Ledger.Events.{paper}
use pump_grok.Core.Json.{normalize}
use pump_grok.Core.Idempotency.{Codec, canonical_json}
use pump_grok.Risk.KillSwitch.Model.{Logged, joined}
use pump_grok.Risk.KillSwitch.Clear.{key_taken}
use pump_grok.Risk.Breaker.{Breaker, new, is_open}
use pump_grok.Risk.Claim.{
  Desk, take_probe, snapshot_probes, claim_probe, claim_free, drop_settled, read_all,
  half_open_names, filter_names, by_name,
}
use pump_grok.Risk.Engine.Gates.{IsClear}
use pump_grok.Risk.Engine.Exposure.{IsFree}
use pump_grok.Risk.Engine.Sizing.{IsSized}
use pump_grok.Risk.Engine.Decide.{Decision, decide, decision_of, approval_id_of}
use pump_grok.Risk.EngineTests.{engine, ask, walk, sized, passes}
use pump_grok.Risk.Engine.Walk.{evaluate}
use pump_grok.Risk.Engine.Model.{pass}
use pump_grok.Execution.Adapter.Model.{Placing}
use pump_grok.Execution.Orders.Journal.{append_rows}
use pump_grok.Execution.Orders.Batch.{
  Quote, sent, submit_order, consume_rows, append_order_batch, write_decided, write_order_batch,
  placed_row, quote_json_for, approval_json_for, risk_json_for,
}
use pump_grok.Execution.Orders.Segments.{ledger_of}
use pump_grok.Execution.Orders.Gated.{submit_order-gated}

abbrev codec : Codec
codec = record { dumps = λ v. "decision"; sha256 = λ s. s; str_of = λ d. "1" }

abbrev placing : Placing
placing = record {
  request = ask.order;
  ledger_source = paper;
  order_id = "O1";
  venue_tx_ref = "dry_run:1";
  creator = none;
  exit_reason = none;
}

abbrev quote : Quote
quote = record {
  id = "Q1";
  out0 = pos 5;
  threshold = pos 4;
  impact = record { coefficient = pos 1; places = 2 };
}

abbrev decision : Decision
decision = decision_of "h" ask sized true "pass"

abbrev shut : Breaker
shut = new 2 10 2

-- No breaker is half open, and the check claims no probe.
abbrev pub desk : Desk
desk = record {
  breakers = record { stale = shut; velocity = shut; errors = shut };
  owners = record { stale = none; velocity = none; errors = none };
}

abbrev grown : List Logged
grown = ledger_of (submit_order codec placing quote decision [])

grown-sent : submit_order codec placing quote decision [] ≡ sent grown
unfolding submit_order append_order_batch write_decided write_order_batch quote_json_for
    approval_json_for risk_json_for canonical_json normalize consume_rows placed_row append_rows
    key_taken joined decision_of approval_id_of
grown-sent = refl

unprobed : take_probe true desk "h" 5 6 ≡ some (false, desk)
unfolding new is_open take_probe snapshot_probes claim_probe claim_free drop_settled read_all
    half_open_names filter_names by_name
unprobed = refl

decided : decide "h" ask (evaluate engine ask walk) (take_probe true desk "h" 5 6) ≡ some decision
unfolding decide
decided =
    ap (λ x. decide "h" ask x (take_probe true desk "h" 5 6)) passes
    ∙ ap (decide "h" ask (pass sized)) unprobed

submit_order-gated_example :
    IsClear engine ask walk
    × IsFree engine ask walk.state
    × ((size : ℤ) × (decision.size_lamports ≡ some size) × IsSized engine ask walk size)
submit_order-gated_example =
    submit_order-gated codec placing quote decision [] grown engine ask walk "h"
      (take_probe true desk "h" 5 6) grown-sent decided refl refl
