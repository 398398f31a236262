-- ===== src/Execution/Orders/Tests.antt =====
-- An order on an empty ledger and its repeat.
use pump_grok.Prelude.{
  true, false, String, none, some, List, [], ◌++◌, ◌≡◌, refl, inl, inr, Bool-cases, arith,
  if◌then◌else◌,
}
use pump_grok.Prelude.Int.{ℤ, pos, ◌+ℤ◌, ◌-ℤ◌, ◌*ℤ◌, floor_div, leb_ℤ, min_ℤ}
use pump_grok.Prelude.Decimal.{Decimal, zero_decimal, lt_decimal}
use pump_grok.Prelude.Dict.{lookup}
use pump_grok.Ledger.Events.{paper}
use pump_grok.Ledger.State.{LedgerState, initial_state}
use pump_grok.Core.Order.{OrderRequest, buy}
use pump_grok.Core.Approval.{ApprovalRecord, human_buy}
use pump_grok.Core.Json.{normalize}
use pump_grok.Core.Idempotency.{Codec, canonical_json, exec_place_key, order_hash_for, take_chars}
use pump_grok.Risk.KillSwitch.Model.{Logged, joined}
use pump_grok.Risk.KillSwitch.Clear.{key_taken}
use pump_grok.Execution.Curve.{buy_out}
use pump_grok.Execution.Fees.{default_fees, venue_fee, network_cost}
use pump_grok.Risk.Engine.Limits.{fraction_of}
use pump_grok.Execution.Adapter.Model.{
  CurveSnapshot, Venue, Placing, Refusal, fill_cap, floor_of, slippage_bps,
}
use pump_grok.Execution.Adapter.Confirm.{await_confirmation}
use pump_grok.Execution.Adapter.Buy.{buy_sizing, buy_confirm, buy_settle, buy_fill_rows, priced_at}
use pump_grok.Execution.Orders.Journal.{
  Fill, Attempt, filled, append_rows, repeat_outcome, repeat_from, by_key, is_whole_fraction,
}
use pump_grok.Execution.Orders.Batch.{
  consume_rows, submit_order, append_order_batch, write_decided, write_order_batch, placed_row,
  quote_json_for, approval_json_for, risk_json_for,
}
use pump_grok.Risk.Engine.Decide.{Decision}
use pump_grok.Execution.Orders.Sizing.{Run, size_order, order_curve, impact_buy, buy_finish}
use pump_grok.Execution.Orders.Place.{
  Answers, Meanwhile, keyed, settle_order, after_write, after_curve, place_new, place_order,
}
use pump_grok.Execution.Orders.Keys.{is_open_order}
use pump_grok.Execution.Orders.Settled.{IsRatio}
use pump_grok.Execution.Orders.Repeat.{place_order-repeat}

abbrev pub codec : Codec
codec = record { dumps = λ v. "decision"; sha256 = λ s. s; str_of = λ d. "1" }

abbrev pub one : Decimal
one = record { coefficient = pos 1; places = 0 }

abbrev pub venue : Venue
venue = record {
  fees = default_fees;
  partial_fill_fraction = record { coefficient = pos 1; places = 1 };
  liquidity_floor_multiple = pos 10;
  max_slippage_bps = pos 500;
  ratio = λ a b. if leb_ℤ b a then one else zero_decimal;
}

venue-IsRatio : IsRatio venue
unfolding is_whole_fraction lt_decimal ◌*ℤ◌
venue-IsRatio a b positive le = elim (Bool-cases (leb_ℤ b a)) [
  | inl e ↦ rw e (ground arith)
  | inr e ↦ rw e (ground arith)
]

abbrev launch : CurveSnapshot
launch = record {
  s_lamports = pos 30_000_000_000;
  t_units = pos 1_073_000_000_000_000;
  complete = false;
  price_allowed = true;
}

abbrev pub request : ℤ → OrderRequest
request size = record {
  ticket_id = "T1";
  mint = "M1";
  side = buy;
  decision_id = "D1";
  size_lamports = some size;
  token_units = none;
  max_slippage_bps = pos 300;
  approval_id = "A1";
  quote_id = none;
  exit_reason = none;
  correlation_id = "C1";
}

abbrev pub placing : String → ℤ → Placing
placing order_id size = record {
  request = request size;
  ledger_source = paper;
  order_id = order_id;
  venue_tx_ref = "dry_run:1";
  creator = none;
  exit_reason = none;
}

abbrev run_of : String → ℤ → Run
run_of order_id size = record {
  p = placing order_id size;
  found = record {
    overran = false;
    cancelled = false;
    curve = some launch;
    refusal = none;
    size_lamports = none;
    dropped = false;
  };
  latency = zero_decimal;
  now_ts = "2026-01-01T00:00:01Z";
  since = λ ts. none;
}

abbrev pub approval : ApprovalRecord
approval = record {
  id = "A1";
  kind = human_buy;
  ticket_id = some "T1";
  mint = some "M1";
  size_lamports = some (pos 1_000_000_000);
  token_units = none;
  max_slippage_bps = some (pos 300);
  exit_rule_id = none;
  approved_by = "human:ann";
  raw_message = "APPROVE BUY T1";
  at = "2026-01-01T00:00:00Z";
  consumed = false;
}

abbrev pub decision : Decision
decision = record {
  passed = true;
  reason = "pass";
  order_hash = "decision";
  approval_id = some "A1";
  approval = some approval;
  size_lamports = some (pos 1_000_000_000);
  capped = false;
  caps = [];
}

abbrev answers : Answers
answers = record { decision = decision; curve = some launch; recheck = decision }

abbrev alone : Meanwhile
alone = record { checking = []; reading = []; rechecking = []; confirming = [] }

abbrev pub genesis : List Logged → LedgerState
genesis rows = initial_state "paper" (pos 10_000_000_000) "2026-01-01"

abbrev pub describe : Refusal → String
describe r = "refused"

abbrev outcome : Attempt × List Logged
outcome =
    place_order codec venue genesis describe (run_of "O1" (pos 1_000_000_000)) answers alone "Q1" []

abbrev fill_of : Attempt → Fill
fill_of (filled f) = f
fill_of a = record {
  order_id = "";
  decision_id = "";
  is_whole = false;
  venue_tx_ref = "";
  filled_lamports = pos 0;
  filled_units = pos 0;
  filled_fraction = zero_decimal;
  price_avg = zero_decimal;
  realised_slippage_bps = pos 0;
  venue_fee_lamports = pos 0;
  network_cost_lamports = pos 0;
  route = "";
  ledger_seq = 0;
}

fills : outcome ≡ (filled (fill_of outcome.0), outcome.1)
unfolding place_order place_new after_curve after_write settle_order submit_order append_order_batch
    write_decided write_order_batch quote_json_for approval_json_for risk_json_for canonical_json
    normalize consume_rows placed_row append_rows key_taken keyed order_curve size_order buy_sizing
    impact_buy buy_finish buy_confirm buy_settle await_confirmation buy_fill_rows priced_at fill_cap
    floor_of slippage_bps fraction_of buy_out venue_fee network_cost floor_div ◌+ℤ◌ ◌-ℤ◌ ◌*ℤ◌ min_ℤ
    lookup initial_state exec_place_key order_hash_for take_chars repeat_outcome repeat_from by_key
    joined
fills = refl

-- The repeat asks for another size, and the engine and the curve are not asked.
abbrev refusing : Answers
refusing = record {
  decision = record decision { passed = false };
  curve = none;
  recheck = decision;
}

place_order-repeat_example :
    place_order codec venue genesis describe
      (run_of "O2" (pos 5))
      refusing
      alone
      "Q2"
      (outcome.1 ++ [])
    ≡ (filled (fill_of outcome.0), outcome.1 ++ [])
unfolding is_open_order
place_order-repeat_example =
    place_order-repeat codec venue genesis describe (run_of "O1" (pos 1_000_000_000))
      (run_of "O2" (pos 5)) answers refusing alone alone "Q1" "Q2" [] outcome.1 []
      (fill_of outcome.0) venue-IsRatio (λ is_buy. omega arith) refl refl fills refl refl refl
