-- ===== src/Risk/Engine/Walk.antt =====
-- The other steps of src/pumpgrok/risk/engine/steps.py, and the walk of rules.py and core.py.
use pump_grok.Prelude.{
  Bool, true, false, not, ◌&&◌, ◌||◌, String, Option, none, some, List, [], ◌∷◌, ◌++◌, str_eq,
  if◌then◌else◌,
}
use pump_grok.Prelude.Int.{ℤ, pos, ltb_ℤ, leb_ℤ}
use pump_grok.Prelude.Dict.{Dict, lookup, total}
use pump_grok.Prelude.Lists.{contains}
use pump_grok.Ledger.State.{LedgerState, PositionView}
use pump_grok.Risk.Engine.Vocabulary.{
  Step, ledger_inconsistent, kill_switch, halted, breaker_open, live_gate, approval_missing,
  approval_mismatch, seat_may_trade, max_trades_per_day, max_open_positions, already_open,
  creator_already_open, max_trade_fraction, max_token_fraction, daily_loss_halt, drawdown_halt,
  data_stale, size_too_small, below_liquidity_floor, step_ids, at, reputation_degraded, no_position,
  is_exit_skip, is_recheck, accepted, confirming, paper, live, escalation_row,
}
use pump_grok.Risk.Engine.Model.{
  Engine, Ask, is_buy, Walk, Outcome, pass, fail, ◌>>=◌, refuse_if, is_empty,
}
use pump_grok.Risk.Engine.Approvals.{
  step_approval_missing, step_approval_mismatch, step_seat_may_trade,
}
use pump_grok.Risk.Engine.Limits.{
  detect_breach, after_breach, step_max_trade_fraction, step_max_token_fraction, step_drawdown_halt,
  no_reserves,
}

unfoldable pub open_count : LedgerState → ℤ
open_count s = total (λ p. if ltb_ℤ (pos 0) p.token_units then pos 1 else pos 0) s.positions

-- Whether some held position fails the test on its mark.
unfoldable pub has_stale : Engine → Dict PositionView → Bool
has_stale e [] = false
has_stale e ((mint, p) ∷ d) =
    if ltb_ℤ (pos 0) p.token_units
      && (str_eq p.last_mtm_ts_utc "" || ltb_ℤ e.mtm_interval_s (e.mark_age p.last_mtm_ts_utc))
    then true
    else has_stale e d

abbrev pub holds_units : Option PositionView → Bool
holds_units none = false
holds_units (some p) = ltb_ℤ (pos 0) p.token_units

-- `_creator_open`
unfoldable pub creator_open : String → Dict PositionView → Bool
creator_open creator [] = false
creator_open creator ((mint, p) ∷ d) =
    if ltb_ℤ (pos 0) p.token_units && str_eq p.creator creator then true else creator_open creator d

-- `ctx.creator or self._creator_of(...)`
abbrev pub creator_for : Engine → Ask → LedgerState → String
creator_for e a s = elim a.creator [
  | none ↦ e.creator_of a.order.mint s
  | some c ↦ if str_eq c "" then e.creator_of a.order.mint s else c
]

unfoldable pub step_breaker_open : Engine → Ask → Walk → Outcome Walk
unfolding contains
step_breaker_open e a w =
    if is_buy a && e.is_degraded
    then fail reputation_degraded (record w { rows = w.rows ++ escalation_row ∷ [] })
    else refuse_if
        (not (is_empty a.open_breakers) || contains a.order.mint a.killed || a.half_blocked)
        (at breaker_open) w

unfoldable pub step_live_gate : Engine → Ask → Walk → Outcome Walk
step_live_gate e a w = elim e.mode [
  | paper ↦ pass w
  | live ↦ refuse_if (not (is_empty e.unmet_live)) (at live_gate) w
]

-- `_step_<id>`. A failed `verify` has latched the store's handle, so the halt row that the first
-- step tries to append is dropped.
unfoldable pub run_step : Engine → Ask → Step → Walk → Outcome Walk
unfolding open_count creator_open has_stale
run_step e a ledger_inconsistent w = refuse_if (not e.is_verified) (at ledger_inconsistent) w
run_step e a kill_switch w = refuse_if a.kill (at kill_switch) w
run_step e a halted w = refuse_if w.state.halt.active (at halted) w
run_step e a breaker_open w = step_breaker_open e a w
run_step e a live_gate w = step_live_gate e a w
run_step e a approval_missing w = step_approval_missing e a w
run_step e a approval_mismatch w = step_approval_mismatch a w.approval w
run_step e a seat_may_trade w = step_seat_may_trade e a w
run_step e a max_trades_per_day w =
    refuse_if (leb_ℤ e.max_trades_per_day w.state.counters.trades_today) (at max_trades_per_day) w
run_step e a max_open_positions w =
    refuse_if (is_buy a && leb_ℤ e.max_open_positions (open_count w.state)) (at max_open_positions)
      w
run_step e a already_open w =
    refuse_if (is_buy a && holds_units (lookup a.order.mint w.state.positions)) (at already_open) w
run_step e a creator_already_open w =
    let creator = creator_for e a w.state in
    refuse_if
      (is_buy a
        && e.one_position_per_creator
        && not (str_eq creator "")
        && creator_open creator w.state.positions)
      (at creator_already_open) w
run_step e a max_trade_fraction w = step_max_trade_fraction e a w
run_step e a max_token_fraction w = step_max_token_fraction e a w
run_step e a daily_loss_halt w =
    after_breach "daily_loss" daily_loss_halt (detect_breach e w.state w.equity) w
run_step e a drawdown_halt w = step_drawdown_halt e w
run_step e a data_stale w = refuse_if (has_stale e w.state.positions) (at data_stale) w
run_step e a size_too_small w =
    refuse_if (is_buy a && ltb_ℤ w.final_size e.min_trade_lamports) (at size_too_small) w
run_step e a below_liquidity_floor w =
    refuse_if
      (is_buy a && no_reserves e.liquidity_floor_multiple w.final_size (e.reserves a.order.mint))
      (at below_liquidity_floor) w

-- `skip_step`
unfoldable pub skip_step : Ask → Step → Bool
skip_step a step =
    (elim a.stage [ accepted ↦ false | confirming ↦ not (is_recheck step) ])
    || (a.is_exit_sell && is_exit_skip step)

-- `walk_steps`: the first refusal stops the walk.
unfoldable pub walk_steps : Engine → Ask → List Step → Walk → Outcome Walk
walk_steps e a [] w = pass w
walk_steps e a (step ∷ steps) w =
    (if skip_step a step then pass w else run_step e a step w) >>= λ w'. walk_steps e a steps w'

-- `confirm_holding`
unfoldable pub confirm_holding : Ask → Walk → Outcome Walk
confirm_holding a w = elim a.stage [
  | accepted ↦ pass w
  | confirming ↦
      refuse_if (not (is_buy a) && not (holds_units (lookup a.order.mint w.state.positions)))
        no_position w
]

-- The stages of `_evaluate` before the probe claim.
unfoldable pub evaluate : Engine → Ask → Walk → Outcome Walk
unfolding walk_steps confirm_holding
evaluate e a w = walk_steps e a step_ids w >>= λ w'. confirm_holding a w'
