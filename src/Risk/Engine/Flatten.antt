-- ===== src/Risk/Engine/Flatten.antt =====
-- `plan_flatten` of src/pumpgrok/risk/engine/core.py: the sells of a kill-switch flatten.
use pump_grok.Prelude.{
  ℕ, ◌+◌, Bool, String, Option, none, some, List, [], ◌∷◌, if◌then◌else◌, false,
}
use pump_grok.Prelude.Int.{ℤ, pos, leb_ℤ}
use pump_grok.Prelude.Dict.{Dict}
use pump_grok.Ledger.State.{PositionView}
use pump_grok.Core.Order.{sell, OrderRequest}
use pump_grok.Core.Approval.{autonomous_paper, ApprovalRecord}
use pump_grok.Risk.KillSwitch.Clear.{◌⧺◌}

pub record FlattenOrder : Type 0 where
  pub order : OrderRequest
  pub approval : ApprovalRecord

abbrev pub put_first : FlattenOrder → Option (List FlattenOrder) → Option (List FlattenOrder)
put_first f none = none
put_first f (some fs) = some (f ∷ fs)

-- `ulid n` is the factory's n-th id.
module _ (ulid : ℕ → String) (now_iso : String) (max_slippage_bps : ℤ)
    (correlation_id : String) where
  unfoldable pub flatten_approval : ℕ → String → PositionView → ApprovalRecord
  flatten_approval n mint p = record {
    id = "apr-" ⧺ ulid n;
    kind = autonomous_paper;
    ticket_id = some p.ticket_id;
    mint = some mint;
    size_lamports = none;
    token_units = some p.token_units;
    max_slippage_bps = some max_slippage_bps;
    exit_rule_id = none;
    approved_by = "risk_engine";
    raw_message = "autonomous-paper kill_flatten " ⧺ mint;
    at = now_iso;
    consumed = false;
  }

  unfoldable pub flatten_order : ℕ → String → PositionView → FlattenOrder
  unfolding flatten_approval
  flatten_order n mint p = record {
    order = record {
      ticket_id = p.ticket_id;
      mint = mint;
      side = sell;
      decision_id = ulid (n + 1);
      size_lamports = none;
      token_units = some p.token_units;
      max_slippage_bps = max_slippage_bps;
      approval_id = (flatten_approval n mint p).id;
      quote_id = none;
      exit_reason = none;
      correlation_id = correlation_id;
    };
    approval = flatten_approval n mint p;
  }

  -- The loop over the folded positions, from the n-th id on. `builds` tells whether the patterns and
  -- bounds of both models' fields accept the values; where they do not, pydantic raises and there is
  -- no plan. (The models' own validators accept every sell with token units of this kind.)
  module _ (builds : FlattenOrder → Bool) where
    unfoldable pub plan_flatten : ℕ → Dict PositionView → Option (List FlattenOrder)
    unfolding flatten_order
    plan_flatten n [] = some []
    plan_flatten n ((mint, p) ∷ positions) =
        let rest = plan_flatten n positions in
        let more = plan_flatten (n + 2) positions in
        if leb_ℤ p.token_units (pos 0)
        then rest
        else if builds (flatten_order n mint p)
        then put_first (flatten_order n mint p) more
        else none
