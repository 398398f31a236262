-- ===== src/Execution/Orders/Gated.antt =====
-- What the engine has checked when an order is written: src/pumpgrok/execution/paper_adapter against
-- src/pumpgrok/risk/engine.
use pump_grok.Prelude.{
  Bool, true, false, String, Option, none, some, List, ◌≡◌, ap, ◌∙◌, if◌then◌else◌,
}
use pump_grok.Prelude.Int.{ℤ}
use pump_grok.Core.Idempotency.{Codec}
use pump_grok.Risk.KillSwitch.Model.{Logged}
use pump_grok.Risk.Claim.{Desk}
use pump_grok.Risk.Engine.Model.{Engine, Ask, is_buy, Walk}
use pump_grok.Risk.Engine.Walk.{evaluate}
use pump_grok.Risk.Engine.Gates.{IsClear, evaluate-IsClear}
use pump_grok.Risk.Engine.Exposure.{IsFree, evaluate-IsFree}
use pump_grok.Risk.Engine.Sizing.{IsSized, evaluate-IsSized}
use pump_grok.Risk.Engine.Decide.{Decision, decide, decide-passed}
use pump_grok.Execution.Adapter.Model.{Placing}
use pump_grok.Execution.Orders.Batch.{Quote, sent, submit_order}
use pump_grok.Execution.Orders.Sent.{submit_order-IsSent}

-- An order is written to the ledger only under a decision that passed; if that is the engine's
-- decision of a buy that is no exit sell, the walk it ends found every gate of the check clear, a
-- position free and neither the mint nor its creator held, and the decision's size is inside the
-- engine's caps, its minimum and the liquidity of the curve.
pub submit_order-gated :
    (c : Codec) (p : Placing) (q : Quote) (d : Decision) (rows rows' : List Logged) (e : Engine)
    (a : Ask) (w : Walk) (order_hash : String) (claimed : Option (Bool × Desk))
    → submit_order c p q d rows ≡ sent rows'
    → decide order_hash a (evaluate e a w) claimed ≡ some d
    → is_buy a ≡ true
    → a.is_exit_sell ≡ false
    → IsClear e a w
      × IsFree e a w.state
      × ((size : ℤ) × (d.size_lamports ≡ some size) × IsSized e a w size)
submit_order-gated c p q d rows rows' e a w order_hash claimed written decided buys plain =
    let passed = (submit_order-IsSent c p q d rows rows' written).passed in
    let (end, walked, sized, approved) =
      decide-passed order_hash a (evaluate e a w) claimed d decided passed in
    (
      evaluate-IsClear e a w end buys plain walked,
      evaluate-IsFree e a w end buys plain walked,
      (
        end.final_size,
        sized ∙ ap (λ b. if b then some end.final_size else none) buys,
        evaluate-IsSized e a w end buys plain walked,
      ),
    )
