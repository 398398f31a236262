-- ===== src/Risk/Engine/Sizing.antt =====
-- The size that a passed buy may have.
use pump_grok.Prelude.{◌≡◌, refl, true, false, Option, none, some, [], ap, sym, subst, ◌∙◌, arith}
use pump_grok.Prelude.Int.{ℤ, ◌*ℤ◌, ◌-ℤ◌, ◌≤ℤ◌, ltb_ℤ}
use pump_grok.Prelude.Dict.{lookup}
use pump_grok.Prelude.Lists.{drop, take}
use pump_grok.Risk.Engine.Model.{Engine, Ask, Walk, pass, is_buy}
use pump_grok.Risk.Engine.Vocabulary.{
  Step, max_trade_fraction, max_token_fraction, daily_loss_halt, drawdown_halt, data_stale,
  size_too_small, below_liquidity_floor, is_recheck, step_ids,
}
use pump_grok.Risk.Engine.Walk.{run_step, walk_steps, confirm_holding, evaluate}
use pump_grok.Risk.Engine.Limits.{
  step_max_trade_fraction, step_max_token_fraction, step_drawdown_halt, detect_breach,
  equity_for_halts, no_reserves, fraction_of, basis_of,
}
use pump_grok.Risk.Engine.Inversion.{
  >>=-eq-pass, pass-injective, refuse_if-pass, walk_steps-run, walk_steps-append,
}
use pump_grok.Risk.Engine.Early.{
  true-ne-false, Same, refuse_if-Same, after_breach-Same, AllEarly, walk_early-Same, runs_for_buy,
  and-false,
}

trade_cap :
    (e : Engine) (a : Ask) (w w' : Walk)
    → is_buy a ≡ true
    → step_max_trade_fraction e a w ≡ pass w'
    → (w'.state ≡ w.state)
      × (w'.equity ≡ w.equity)
      × (w'.final_size ≤ℤ w.final_size)
      × (w'.final_size ≤ℤ fraction_of e.max_trade_fraction w.equity)
unfolding step_max_trade_fraction
trade_cap e a w w' buys h = (ground arith, ground arith, ground arith, ground arith)

token_cap :
    (e : Engine) (a : Ask) (w w' : Walk)
    → is_buy a ≡ true
    → step_max_token_fraction e a w ≡ pass w'
    → (w'.final_size ≤ℤ w.final_size)
      × (w'.final_size
          ≤ℤ fraction_of e.max_token_fraction w.equity
            -ℤ basis_of (lookup a.order.mint w.state.positions))
unfolding step_max_token_fraction
token_cap e a w w' buys h = (ground arith, ground arith)

drawdown_size :
    (e : Engine) (w w' : Walk) → step_drawdown_halt e w ≡ pass w' → w'.final_size ≡ w.final_size
unfolding step_drawdown_halt
drawdown_size e w w' h =
    let s = e.store_fold w.rows in
    (after_breach-Same "drawdown" drawdown_halt (detect_breach e s (equity_for_halts e s))
      (record w { state = s; equity = equity_for_halts e s }) w' h).2

-- The limits on the size of a buy, from the state and the equity that the check began with.
pub record IsSized (e : Engine) (a : Ask) (w : Walk) (size : ℤ) : Type 0 where
  pub asked : size ≤ℤ w.final_size
  pub trade_capped : size ≤ℤ fraction_of e.max_trade_fraction w.equity
  pub token_capped :
      size
      ≤ℤ fraction_of e.max_token_fraction w.equity
        -ℤ basis_of (lookup a.order.mint w.state.positions)
  pub large_enough : e.min_trade_lamports ≤ℤ size
  pub liquid :
      (s0 t0 : ℤ) × (e.reserves a.order.mint ≡ some (s0, t0))
      × (e.liquidity_floor_multiple *ℤ size ≤ℤ s0)

floor_found :
    (multiple size : ℤ) (o : Option (ℤ × ℤ))
    → no_reserves multiple size o ≡ false
    → (s0 t0 : ℤ) × (o ≡ some (s0, t0)) × (multiple *ℤ size ≤ℤ s0)
floor_found multiple size none h = absurd (true-ne-false h)
floor_found multiple size (some (s0, t0)) h = (s0, t0, refl, ground arith)

confirm_holding-same :
    (a : Ask) (w d : Walk) → confirm_holding a w ≡ pass d → d.final_size ≡ w.final_size
unfolding confirm_holding
confirm_holding-same a w d h = ground arith

caps-IsSized :
    (e : Engine) (a : Ask) (w w0 w1 w2 : Walk) (size : ℤ)
    → Same w w0
    → (w1.state ≡ w0.state)
      × (w1.equity ≡ w0.equity)
      × (w1.final_size ≤ℤ w0.final_size)
      × (w1.final_size ≤ℤ fraction_of e.max_trade_fraction w0.equity)
    → (w2.final_size ≤ℤ w1.final_size)
      × (w2.final_size
          ≤ℤ fraction_of e.max_token_fraction w1.equity
            -ℤ basis_of (lookup a.order.mint w1.state.positions))
    → size ≡ w2.final_size
    → ltb_ℤ size e.min_trade_lamports ≡ false
    → no_reserves e.liquidity_floor_multiple size (e.reserves a.order.mint) ≡ false
    → IsSized e a w size
caps-IsSized e a w w0 w1 w2 size same1 one two eq large liquid = record {
  asked = grind arith;
  trade_capped = grind arith;
  token_capped = let moved = rw (← eq, one.0 ∙ same1.0, one.1 ∙ same1.1) at two.1 in moved;
  large_enough = ground arith;
  liquid = floor_found _ _ _ liquid;
}

early_first : AllEarly (take 12 step_ids)
early_first = (
  refl,
  (refl, (refl, (refl, (refl, (refl, (refl, (refl, (refl, (refl, (refl, (refl, tt))))))))))),
)

-- A buy that passes the check, at ACCEPTED or again at CONFIRMING, leaves with a size of at most
-- the size it came with, the per-trade cap and the room under the token cap, all by the equity
-- and positions the check began with; at least the minimum trade; and with curve reserves known
-- that are at least the liquidity multiple of it.
pub evaluate-IsSized :
    (e : Engine) (a : Ask) (w d : Walk)
    → is_buy a ≡ true
    → a.is_exit_sell ≡ false
    → evaluate e a w ≡ pass d
    → IsSized e a w d.final_size
unfolding evaluate run_step walk_steps
evaluate-IsSized e a w d buys plain h =
    let (end, walked, held) = >>=-eq-pass (walk_steps e a step_ids w) _ h in
    let (w0, first, t0) =
      walk_steps-append e a (take 12 step_ids) (drop 12 step_ids) w end walked in
    let same0 = walk_early-Same e a (take 12 step_ids) w w0 early_first first in
    let runs = λ (s : Step) (again : is_recheck s ≡ true). runs_for_buy a s plain again in
    let (w1, r1, t1) =
      walk_steps-run e a max_trade_fraction (drop 13 step_ids) w0 end (runs _ refl) t0 in
    let (w2, r2, t2) =
      walk_steps-run e a max_token_fraction (drop 14 step_ids) w1 end (runs _ refl) t1 in
    let (w3, r3, t3) =
      walk_steps-run e a daily_loss_halt (drop 15 step_ids) w2 end (runs _ refl) t2 in
    let (w4, r4, t4) =
      walk_steps-run e a drawdown_halt (drop 16 step_ids) w3 end (runs _ refl) t3 in
    let (w5, r5, t5) = walk_steps-run e a data_stale (drop 17 step_ids) w4 end (runs _ refl) t4 in
    let (w6, r6, t6) =
      walk_steps-run e a size_too_small (drop 18 step_ids) w5 end (runs _ refl) t5 in
    let (w7, r7, t7) = walk_steps-run e a below_liquidity_floor [] w6 end (runs _ refl) t6 in
    let (ok6, same6) = refuse_if-pass _ _ w5 w6 r6 in
    let (ok7, same7) = refuse_if-pass _ _ w6 w7 r7 in
    let last =
      confirm_holding-same a end d held
      ∙ ap (λ (v : Walk). v.final_size) (sym (same6 ∙ same7 ∙ pass-injective w7 end t7)) in
    let z5 =
      (refuse_if-Same _ _ w4 w5 r5).2
      ∙ drawdown_size e w3 w4 r4
      ∙ (after_breach-Same _ _ _ w2 w3 r3).2 in
    caps-IsSized e a w w0 w1 w2 d.final_size same0 (trade_cap e a w0 w1 buys r1)
      (token_cap e a w1 w2 buys r2) (last ∙ z5)
      (subst (λ n. ltb_ℤ n e.min_trade_lamports ≡ false) (sym last) (and-false buys ok6))
      (subst (λ n. no_reserves e.liquidity_floor_multiple n (e.reserves a.order.mint) ≡ false)
        (ap (λ (v : Walk). v.final_size) (sym same6) ∙ sym last) (and-false buys ok7))
