-- ===== src/Risk/Engine/Model.antt =====
-- src/pumpgrok/risk/engine/model.py: the state of a walk, what a check reads, and its outcomes.
use pump_grok.Prelude.{Bool, true, false, String, Option, none, some, List, [], ◌∷◌, if◌then◌else◌}
use pump_grok.Prelude.Int.{ℤ}
use pump_grok.Prelude.Dict.{Dict}
use pump_grok.Prelude.Decimal.{Decimal}
use pump_grok.Prelude.Lists.{contains}
use pump_grok.Ledger.State.{LedgerState}
use pump_grok.Core.Order.{OrderRequest, is_buy_side}
use pump_grok.Core.Approval.{ApprovalRecord}
use pump_grok.Risk.Engine.Vocabulary.{Reason, Stage, Mode, Autonomy, Appended}

-- What the steps read of the engine and of the world round it, at one check. `store_fold` is
-- the state that a fold of the ledger gives after the rows appended so far, and
-- `drawdown_reached peak equity` the test on the drawdown ratio, in Python's floats.
-- `mark_age` is the age of a position's mark at the clock's reading.
pub record Engine : Type 0 where
  pub mode : Mode
  pub autonomy : Autonomy
  pub max_trade_fraction : Decimal
  pub max_token_fraction : Decimal
  pub daily_loss_halt_fraction : Decimal
  pub max_open_positions : ℤ
  pub max_trades_per_day : ℤ
  pub liquidity_floor_multiple : ℤ
  pub min_trade_lamports : ℤ
  pub one_position_per_creator : Bool
  pub realized_basis : Bool
  pub mtm_interval_s : ℤ
  pub observe_only : List String
  pub is_degraded : Bool
  pub unmet_live : List String
  pub calling_seat : Option String
  pub is_verified : Bool
  pub is_cleared_today : Bool
  pub store_fold : List Appended → LedgerState
  pub drawdown_reached : ℤ → ℤ → Bool
  pub mark_age : String → ℤ
  pub reserves : String → Option (ℤ × ℤ)
  pub creator_of : String → LedgerState → String
  pub fresh_id : String
  pub now_iso : String

-- The part of `_StepCtx` that no step writes.
pub record Ask : Type 0 where
  pub order : OrderRequest
  pub seat : Option String
  pub exit_reason : Option String
  pub creator : Option String
  pub stage : Stage
  pub is_exit_sell : Bool
  pub kill : Bool
  pub open_breakers : List String
  pub half_blocked : Bool
  pub killed : List String
  pub approvals : Dict ApprovalRecord

abbrev pub is_buy : Ask → Bool
is_buy a = is_buy_side a.order.side

-- The part that the steps write, and the rows that they have appended.
pub record Walk : Type 0 where
  pub state : LedgerState
  pub equity : ℤ
  pub approval : Option ApprovalRecord
  pub final_size : ℤ
  pub caps : Dict ℤ
  pub capped : Bool
  pub rows : List Appended

-- A step passes, raises `_Fail`, or raises `CorruptState`.
pub data Outcome {ℓ} (A : Type ℓ) : Type ℓ where
  pass : A → Outcome A
  fail : Reason → Walk → Outcome A
  corrupt : Outcome A

infixl 5 ◌>>=◌
abbrev pub ◌>>=◌ {ℓ κ} : {A : Type ℓ} {B : Type κ} → Outcome A → (A → Outcome B) → Outcome B
pass a >>= f = f a
fail r w >>= f = fail r w
corrupt >>= f = corrupt

abbrev pub refuse_if : Bool → Reason → Walk → Outcome Walk
refuse_if b r w = if b then fail r w else pass w

abbrev pub reason_in : Option String → List String → Bool
reason_in none reasons = false
reason_in (some r) reasons = contains r reasons

abbrev pub is_empty {ℓ} : {A : Type ℓ} → List A → Bool
is_empty [] = true
is_empty (x ∷ xs) = false
