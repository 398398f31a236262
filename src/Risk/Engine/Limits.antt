-- ===== src/Risk/Engine/Limits.antt =====
-- The sizing, loss and drawdown steps of src/pumpgrok/risk/engine/steps.py.
use pump_grok.Prelude.{
  ℕ, ◌+◌, ◌^◌, ◌/◌, Bool, true, ◌&&◌, String, Option, none, some, [], ◌∷◌, ◌++◌, str_eq,
  if◌then◌else◌,
}
use pump_grok.Prelude.Int.{ℤ, pos, negsuc, ◌+ℤ◌, ◌-ℤ◌, ◌*ℤ◌, ltb_ℤ, leb_ℤ}
use pump_grok.Prelude.Dict.{lookup, insert}
use pump_grok.Prelude.Decimal.{Decimal}
use pump_grok.Ledger.State.{LedgerState, PositionView, equity_lamports}
use pump_grok.Risk.Engine.Vocabulary.{Step, max_token_fraction, drawdown_halt, at, halt_row}
use pump_grok.Risk.Engine.Model.{Engine, Ask, is_buy, Walk, Outcome, pass, fail, corrupt, refuse_if}

-- `int(fraction * equity)`: a Decimal times an integer, truncated toward zero. Exact, as the
-- source's product is below 29 significant digits.
unfoldable pub truncate : ℤ → ℕ → ℤ
unfolding ◌-ℤ◌
truncate (pos n) d = pos (n / d)
truncate (negsuc n) d = pos 0 -ℤ pos ((n + 1) / d)

unfoldable pub fraction_of : Decimal → ℤ → ℤ
unfolding truncate
fraction_of f equity = truncate (f.coefficient *ℤ equity) (10 ^ f.places)

-- `_detect_breach`: the halt that a fresh breach sets, if any. `none` inside is no breach; the
-- outer `none` is `CorruptState`.
unfoldable pub detect_breach : Engine → LedgerState → ℤ → Option (Option String)
detect_breach e s equity =
    let loss = s.day_start_equity_lamports -ℤ equity in
    let limit = e.daily_loss_halt_fraction in
    if e.is_cleared_today
    then some none
    else if leb_ℤ s.day_start_equity_lamports (pos 0)
    then none
    else if leb_ℤ (s.day_start_equity_lamports *ℤ limit.coefficient)
        (loss *ℤ pos (10 ^ limit.places))
    then some (some "daily_loss")
    else if e.drawdown_reached s.peak_equity_lamports equity
    then some (some "drawdown")
    else some none

-- A breach appends its halt row; the step fails if the breach is its own.
unfoldable pub after_breach : String → Step → Option (Option String) → Walk → Outcome Walk
after_breach own step none w = corrupt
after_breach own step (some none) w = pass w
after_breach own step (some (some reason)) w =
    let w' = record w { rows = w.rows ++ halt_row reason ∷ [] } in
    refuse_if (str_eq reason own) (at step) w'

-- `_equity_for_halts`, given the equity view's value.
unfoldable pub equity_for_halts : Engine → LedgerState → ℤ
unfolding equity_lamports
equity_for_halts e s =
    if e.realized_basis
    then s.cash_lamports +ℤ s.counters.realized_today_lamports
    else equity_lamports s

abbrev pub basis_of : Option PositionView → ℤ
basis_of none = pos 0
basis_of (some p) = p.cost_basis_lamports

unfoldable pub step_max_trade_fraction : Engine → Ask → Walk → Outcome Walk
unfolding fraction_of
step_max_trade_fraction e a w =
    let cap = fraction_of e.max_trade_fraction w.equity in
    pass (
      if is_buy a && ltb_ℤ cap w.final_size
      then record w {
        final_size = cap;
        capped = true;
        caps = insert "max_trade_fraction" cap w.caps;
      }
      else w)

unfoldable pub step_max_token_fraction : Engine → Ask → Walk → Outcome Walk
unfolding fraction_of
step_max_token_fraction e a w =
    let cap =
      fraction_of e.max_token_fraction w.equity
      -ℤ basis_of (lookup a.order.mint w.state.positions) in
    if is_buy a && ltb_ℤ cap w.final_size
    then (if ltb_ℤ cap e.min_trade_lamports
        then fail (at max_token_fraction) w
        else pass (record w {
          final_size = cap;
          capped = true;
          caps = insert "max_token_fraction" cap w.caps;
        }))
    else pass w

-- `_step_drawdown_halt` folds the ledger again before it looks.
unfoldable pub step_drawdown_halt : Engine → Walk → Outcome Walk
unfolding equity_for_halts detect_breach after_breach
step_drawdown_halt e w =
    let s = e.store_fold w.rows in
    let w' = record w { state = s; equity = equity_for_halts e s } in
    after_breach "drawdown" drawdown_halt (detect_breach e s (equity_for_halts e s)) w'

abbrev pub no_reserves : ℤ → ℤ → Option (ℤ × ℤ) → Bool
no_reserves multiple size none = true
no_reserves multiple size (some (s0, t0)) = ltb_ℤ s0 (multiple *ℤ size)
