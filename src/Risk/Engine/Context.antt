-- ===== src/Risk/Engine/Context.antt =====
-- `_new_ctx` of src/pumpgrok/risk/engine/core.py, for the part of a check that no step writes.
use pump_grok.Prelude.{Bool, not, ◌&&◌, String, Option, List, [], if◌then◌else◌}
use pump_grok.Prelude.Dict.{Dict}
use pump_grok.Core.Order.{OrderRequest, is_buy_side}
use pump_grok.Core.Approval.{ApprovalRecord}
use pump_grok.Risk.Claim.{ProbeView, no_names}
use pump_grok.Risk.Engine.Vocabulary.{Stage, exit_sell_reasons}
use pump_grok.Risk.Engine.Model.{Ask, reason_in}

-- The polled kill switch, the open breakers, the view of the probes, the mints with a kill
-- verdict, and the recorded approvals.
pub record World : Type 0 where
  pub kill : Bool
  pub open_breakers : List String
  pub probes : ProbeView
  pub killed_mints : List String
  pub approvals : Dict ApprovalRecord

unfoldable pub new_ask :
    OrderRequest → Option String → Option String → Option String → Stage → World → Ask
new_ask order seat exit_reason creator stage world =
    let buys = is_buy_side order.side in
    let view = world.probes in
    record {
      order = order;
      seat = seat;
      exit_reason = exit_reason;
      creator = creator;
      stage = stage;
      is_exit_sell = not buys && reason_in exit_reason exit_sell_reasons;
      kill = world.kill;
      open_breakers = world.open_breakers;
      half_blocked =
          buys && not (no_names view.half_all) && no_names view.half_avail && no_names view.owned;
      killed = if buys then world.killed_mints else [];
      approvals = world.approvals;
    }
