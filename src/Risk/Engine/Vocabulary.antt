-- ===== src/Risk/Engine/Vocabulary.antt =====
-- src/pumpgrok/risk/engine/constants.py: the steps, their order and the names that they test.
use pump_grok.Prelude.{Bool, true, false, String, List, [], ◌∷◌}
use pump_grok.Core.Order.{exit_rule_reasons}

-- `STEP_IDS`
pub data Step : Type 0 where
  ledger_inconsistent kill_switch halted breaker_open live_gate approval_missing : Step
  approval_mismatch seat_may_trade max_trades_per_day max_open_positions already_open : Step
  creator_already_open max_trade_fraction max_token_fraction daily_loss_halt : Step
  drawdown_halt data_stale size_too_small below_liquidity_floor : Step

abbrev pub step_ids : List Step
step_ids =
    ledger_inconsistent ∷ kill_switch ∷ halted ∷ breaker_open ∷ live_gate ∷ approval_missing
    ∷ approval_mismatch ∷ seat_may_trade ∷ max_trades_per_day ∷ max_open_positions ∷ already_open
    ∷ creator_already_open ∷ max_trade_fraction ∷ max_token_fraction ∷ daily_loss_halt
    ∷ drawdown_halt ∷ data_stale ∷ size_too_small ∷ below_liquidity_floor ∷ []

-- `_Fail.reason`: a step's id, or one of the two reasons that are no step.
pub data Reason : Type 0 where
  at : Step → Reason
  reputation_degraded no_position : Reason

-- `EXIT_SKIP_STEPS`
abbrev pub is_exit_skip : Step → Bool
is_exit_skip ledger_inconsistent = false
is_exit_skip live_gate = false
is_exit_skip approval_missing = false
is_exit_skip approval_mismatch = false
is_exit_skip seat_may_trade = false
is_exit_skip _ = true

-- `_RECHECK_STEPS`
abbrev pub is_recheck : Step → Bool
is_recheck live_gate = false
is_recheck approval_missing = false
is_recheck approval_mismatch = false
is_recheck seat_may_trade = false
is_recheck max_trades_per_day = false
is_recheck _ = true

pub data Stage : Type 0 where
  accepted confirming : Stage

pub data Mode : Type 0 where
  paper live : Mode

pub data Autonomy : Type 0 where
  manual_ticket autonomous_paper_level : Autonomy

abbrev pub buy_seat : String
buy_seat = "bot-04-sniper"

abbrev pub sell_seat : String
sell_seat = "bot-06-exit"

abbrev pub exit_sell_reasons : List String
exit_sell_reasons =
    "exit_rule" ∷ "rug_alert" ∷ "kill_flatten" ∷ "blind_flatten" ∷ "graduated" ∷ exit_rule_reasons

abbrev pub system_exit_reasons : List String
system_exit_reasons = "kill_flatten" ∷ "rug_alert" ∷ []

-- A row that the walk appends: a halt with its reason, or the reputation escalation.
pub data Appended : Type 0 where
  halt_row : String → Appended
  escalation_row : Appended
