-- ===== src/Risk/Engine/Early.antt =====
-- The steps other than the sizing ones leave the state, the equity and the size alone.
use pump_grok.Prelude.{
  ◌≡◌, refl, Bool, true, false, ◌&&◌, String, Option, none, some, List, [], ◌∷◌, subst, ◌∙◌, arith,
  if◌then◌else◌,
}
use pump_grok.Prelude.Dict.{lookup}
use pump_grok.Core.Approval.{ApprovalRecord}
use pump_grok.Risk.Engine.Model.{Engine, Ask, Walk, pass, refuse_if}
use pump_grok.Risk.Engine.Vocabulary.{
  Step, Reason, ledger_inconsistent, kill_switch, halted, breaker_open, live_gate, approval_missing,
  approval_mismatch, seat_may_trade, max_trades_per_day, max_open_positions, already_open,
  creator_already_open, max_trade_fraction, max_token_fraction, daily_loss_halt, drawdown_halt,
  data_stale, size_too_small, below_liquidity_floor, is_recheck,
}
use pump_grok.Risk.Engine.Walk.{step_breaker_open, step_live_gate, run_step, skip_step, walk_steps}
use pump_grok.Risk.Engine.Approvals.{
  step_approval_missing, step_approval_mismatch, step_seat_may_trade, presented,
}
use pump_grok.Risk.Engine.Limits.{after_breach}
use pump_grok.Risk.Engine.Inversion.{>>=-eq-pass, pass-injective, refuse_if-pass}

pub true-ne-false : true ≡ false → ⊥
true-ne-false h = cc

-- The walk's state, equity and size.
abbrev pub Same : Walk → Walk → Type 0
Same w w' = (w'.state ≡ w.state) × (w'.equity ≡ w.equity) × (w'.final_size ≡ w.final_size)

-- The steps before the sizing.
abbrev pub is_early : Step → Bool
is_early max_trade_fraction = false
is_early max_token_fraction = false
is_early drawdown_halt = false
is_early _ = true

presented-Same :
    (a : Ask) (o : Option ApprovalRecord) (w w' : Walk) → presented a o w ≡ pass w' → Same w w'
unfolding presented
presented-Same a none w w' h = cc
presented-Same a (some r) w w' h = (ground arith, ground arith, ground arith)

step_approval_missing-Same :
    (e : Engine) (a : Ask) (w w' : Walk) → step_approval_missing e a w ≡ pass w' → Same w w'
unfolding step_approval_missing
step_approval_missing-Same e a w w' h =
    grind (arith, presented-Same a (lookup a.order.approval_id a.approvals) w w')

step_approval_mismatch-Same :
    (a : Ask) (o : Option ApprovalRecord) (w w' : Walk)
    → step_approval_mismatch a o w ≡ pass w'
    → Same w w'
unfolding step_approval_mismatch
step_approval_mismatch-Same a none w w' h = cc
step_approval_mismatch-Same a (some r) w w' h = (ground arith, ground arith, ground arith)

pub refuse_if-Same : (b : Bool) (r : Reason) (w w' : Walk) → refuse_if b r w ≡ pass w' → Same w w'
refuse_if-Same b r w w' h = subst (Same w) (refuse_if-pass b r w w' h).1 (refl, refl, refl)

pub after_breach-Same :
    (own : String) (step : Step) (o : Option (Option String)) (w w' : Walk)
    → after_breach own step o w ≡ pass w'
    → Same w w'
unfolding after_breach
after_breach-Same own step none w w' h = cc
after_breach-Same own step (some none) w w' h =
    subst (Same w) (pass-injective w w' h) (refl, refl, refl)
after_breach-Same own step (some (some reason)) w w' h = (ground arith, ground arith, ground arith)

early-Same :
    (e : Engine) (a : Ask) (step : Step) (w w' : Walk)
    → is_early step ≡ true
    → run_step e a step w ≡ pass w'
    → Same w w'
unfolding run_step
early-Same e a ledger_inconsistent w w' early h = refuse_if-Same _ _ w w' h
early-Same e a kill_switch w w' early h = refuse_if-Same _ _ w w' h
early-Same e a halted w w' early h = refuse_if-Same _ _ w w' h
early-Same e a breaker_open w w' early h =
    unfold step_breaker_open in (ground arith, ground arith, ground arith)
early-Same e a live_gate w w' early h =
    unfold step_live_gate in (ground arith, ground arith, ground arith)
early-Same e a approval_missing w w' early h = step_approval_missing-Same e a w w' h
early-Same e a approval_mismatch w w' early h = step_approval_mismatch-Same a w.approval w w' h
early-Same e a seat_may_trade w w' early h =
    unfold step_seat_may_trade in (ground arith, ground arith, ground arith)
early-Same e a max_trades_per_day w w' early h = refuse_if-Same _ _ w w' h
early-Same e a max_open_positions w w' early h = refuse_if-Same _ _ w w' h
early-Same e a already_open w w' early h = refuse_if-Same _ _ w w' h
early-Same e a creator_already_open w w' early h = refuse_if-Same _ _ w w' h
early-Same e a max_trade_fraction w w' early h = cc
early-Same e a max_token_fraction w w' early h = cc
early-Same e a daily_loss_halt w w' early h = after_breach-Same _ _ _ w w' h
early-Same e a drawdown_halt w w' early h = cc
early-Same e a data_stale w w' early h = refuse_if-Same _ _ w w' h
early-Same e a size_too_small w w' early h = refuse_if-Same _ _ w w' h
early-Same e a below_liquidity_floor w w' early h = refuse_if-Same _ _ w w' h

abbrev pub AllEarly : List Step → Type 0
AllEarly [] = Unit
AllEarly (s ∷ ss) = (is_early s ≡ true) × AllEarly ss

Same-trans : (u v w : Walk) → Same u v → Same v w → Same u w
Same-trans u v w p q = (q.0 ∙ p.0, q.1 ∙ p.1, q.2 ∙ p.2)

guarded-Same :
    (e : Engine) (a : Ask) (step : Step) (skipped : Bool) (w w' : Walk)
    → is_early step ≡ true
    → (if skipped then pass w else run_step e a step w) ≡ pass w'
    → Same w w'
guarded-Same e a step true w w' early h = subst (Same w) (pass-injective w w' h) (refl, refl, refl)
guarded-Same e a step false w w' early h = early-Same e a step w w' early h

pub walk_early-Same :
    (e : Engine) (a : Ask) (steps : List Step) (w d : Walk)
    → AllEarly steps
    → walk_steps e a steps w ≡ pass d
    → Same w d
unfolding walk_steps
walk_early-Same e a [] w d all h = subst (Same w) (pass-injective w d h) (refl, refl, refl)
walk_early-Same e a (s ∷ ss) w d all h =
    let (w', one, rest) = >>=-eq-pass _ (λ v. walk_steps e a ss v) h in
    Same-trans w w' d (guarded-Same e a s (skip_step a s) w w' all.0 one)
      (walk_early-Same e a ss w' d all.1 rest)

pub runs_for_buy :
    (a : Ask) (step : Step)
    → a.is_exit_sell ≡ false
    → is_recheck step ≡ true
    → skip_step a step ≡ false
unfolding skip_step
runs_for_buy a step plain again = ground arith

pub and-false : {b c : Bool} → b ≡ true → (b && c) ≡ false → c ≡ false
and-false {b} {c} h k = ground arith
