-- ===== src/Risk/Engine/Gates.antt =====
-- A buy passes only with every gate clear.
use pump_grok.Prelude.{◌≡◌, true, false, [], ap, ◌∙◌, arith}
use pump_grok.Prelude.Lists.{contains, drop}
use pump_grok.Risk.Engine.Model.{Engine, Ask, Walk, pass, is_buy}
use pump_grok.Risk.Engine.Vocabulary.{
  ledger_inconsistent, kill_switch, halted, breaker_open, step_ids,
}
use pump_grok.Risk.Engine.Walk.{step_breaker_open, run_step, skip_step, walk_steps, evaluate}
use pump_grok.Risk.Engine.Inversion.{>>=-eq-pass, refuse_if-pass, walk_steps-run}

-- The gates of a check.
pub record IsClear (e : Engine) (a : Ask) (w : Walk) : Type 0 where
  pub verified : e.is_verified ≡ true
  pub not_killed : a.kill ≡ false
  pub not_halted : w.state.halt.active ≡ false
  pub not_degraded : e.is_degraded ≡ false
  pub breakers_shut : a.open_breakers ≡ []
  pub mint_alive : contains a.order.mint a.killed ≡ false
  pub probe_free : a.half_blocked ≡ false

step_breaker_open-clear :
    (e : Engine) (a : Ask) (w w' : Walk)
    → is_buy a ≡ true
    → step_breaker_open e a w ≡ pass w'
    → (e.is_degraded ≡ false)
      × (a.open_breakers ≡ [])
      × (contains a.order.mint a.killed ≡ false)
      × (a.half_blocked ≡ false)
unfolding step_breaker_open
step_breaker_open-clear e a w w' buys h = (ground arith, ground arith, ground arith, ground arith)

-- A buy that passes the check, at ACCEPTED or again at CONFIRMING, does so on a ledger that
-- verifies, with no kill switch, no halt, a sound reputation book, no open breaker, no kill
-- verdict on its mint and no block by half-open breakers whose probes are all taken.
pub evaluate-IsClear :
    (e : Engine) (a : Ask) (w d : Walk)
    → is_buy a ≡ true
    → a.is_exit_sell ≡ false
    → evaluate e a w ≡ pass d
    → IsClear e a w
unfolding evaluate run_step skip_step
evaluate-IsClear e a w d buys plain h =
    let (end, walked, _) = >>=-eq-pass (walk_steps e a step_ids w) _ h in
    let (w1, r1, t1) =
      walk_steps-run e a ledger_inconsistent (drop 1 step_ids) w end (ground arith) walked in
    let (w2, r2, t2) = walk_steps-run e a kill_switch (drop 2 step_ids) w1 end (ground arith) t1 in
    let (w3, r3, t3) = walk_steps-run e a halted (drop 3 step_ids) w2 end (ground arith) t2 in
    let (w4, r4, t4) = walk_steps-run e a breaker_open (drop 4 step_ids) w3 end (ground arith) t3 in
    let f1 = refuse_if-pass _ _ w w1 r1 in
    let f2 = refuse_if-pass _ _ w1 w2 r2 in
    let f3 = refuse_if-pass _ _ w2 w3 r3 in
    let f4 = step_breaker_open-clear e a w3 w4 buys r4 in
    record {
      verified = ground (arith, f1.0);
      not_killed = f2.0;
      not_halted = ap (λ (v : Walk). v.state.halt.active) (f1.1 ∙ f2.1) ∙ f3.0;
      not_degraded = f4.0;
      breakers_shut = f4.1;
      mint_alive = f4.2;
      probe_free = f4.3;
    }
