-- ===== src/Risk/Engine/Exits.antt =====
-- A flatten sell is never stopped by the desk's risk limits.
use pump_grok.Prelude.{◌≡◌, refl, true, String, Option, some}
use pump_grok.Prelude.Lists.{contains}
use pump_grok.Core.Order.{sell, OrderRequest}
use pump_grok.Risk.Engine.Vocabulary.{accepted, paper}
use pump_grok.Risk.Engine.Model.{Engine, Walk, pass}
use pump_grok.Risk.Engine.Approvals.{
  mint_autonomous, step_approval_missing, step_approval_mismatch, mismatch, step_seat_may_trade,
}
use pump_grok.Risk.Engine.Walk.{
  run_step, step_live_gate, skip_step, walk_steps, confirm_holding, evaluate,
}
use pump_grok.Risk.Engine.Context.{World, new_ask}

-- A sell for the kill switch's flatten passes the check at ACCEPTED, under the engine's own
-- approval, on every paper desk whose ledger verifies: whatever the seat, the kill switch, the
-- halt, the breakers, the approvals and the limits say, and without a row or a change of size.
pub evaluate_flatten :
    (e : Engine) (order : OrderRequest) (seat creator : Option String) (world : World) (w : Walk)
    → e.mode ≡ paper
    → e.is_verified ≡ true
    → order.side ≡ sell
    → evaluate e (new_ask order seat (some "kill_flatten") creator accepted world) w
      ≡ pass (record w { approval = some (mint_autonomous e order (some "kill_flatten")) })
unfolding evaluate walk_steps skip_step new_ask run_step contains step_live_gate
    step_approval_missing step_approval_mismatch mismatch step_seat_may_trade mint_autonomous
    confirm_holding
evaluate_flatten e order seat creator world w mode verified side = rw (mode, verified, side) refl
