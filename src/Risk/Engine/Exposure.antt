-- ===== src/Risk/Engine/Exposure.antt =====
-- A buy passes only with a free slot, on a mint and a creator that the desk does not hold.
use pump_grok.Prelude.{◌≡◌, refl, ap, sym, subst, ◌∙◌, Bool, true, false, not, ◌&&◌, arith, str_eq}
use pump_grok.Prelude.Int.{leb_ℤ}
use pump_grok.Prelude.Dict.{lookup}
use pump_grok.Prelude.Lists.{drop, take}
use pump_grok.Ledger.State.{LedgerState}
use pump_grok.Risk.Engine.Vocabulary.{
  Step, step_ids, max_open_positions, already_open, creator_already_open, is_recheck,
}
use pump_grok.Risk.Engine.Model.{Engine, Ask, is_buy, Walk, pass}
use pump_grok.Risk.Engine.Walk.{
  open_count, holds_units, creator_for, creator_open, run_step, walk_steps, evaluate,
}
use pump_grok.Risk.Engine.Inversion.{>>=-eq-pass, refuse_if-pass, walk_steps-run, walk_steps-append}
use pump_grok.Risk.Engine.Early.{AllEarly, walk_early-Same, runs_for_buy, and-false}

-- The desk's exposure before the buy, in the state that the check began with.
pub record IsFree (e : Engine) (a : Ask) (s : LedgerState) : Type 0 where
  pub slot : leb_ℤ e.max_open_positions (open_count s) ≡ false
  pub not_held : holds_units (lookup a.order.mint s.positions) ≡ false
  -- Where the limit on creators is on and the creator is known, no open position is theirs.
  pub creator_free :
      e.one_position_per_creator ≡ true
      → str_eq (creator_for e a s) "" ≡ false
      → creator_open (creator_for e a s) s.positions ≡ false

early_part : AllEarly (take 9 step_ids)
early_part = (refl, (refl, (refl, (refl, (refl, (refl, (refl, (refl, (refl, tt)))))))))

creator_refused :
    {b one known taken : Bool}
    → b ≡ true
    → (b && one && not known && taken) ≡ false
    → one ≡ true
    → known ≡ false
    → taken ≡ false
creator_refused {b} {one} {known} {taken} h k o n = ground arith

-- A buy that passes the check, at ACCEPTED or again at CONFIRMING, does so with fewer positions
-- open than the limit, none of them on its mint and, under the limit of one position for each
-- creator, none of them of its mint's creator when that is known.
pub evaluate-IsFree :
    (e : Engine) (a : Ask) (w d : Walk)
    → is_buy a ≡ true
    → a.is_exit_sell ≡ false
    → evaluate e a w ≡ pass d
    → IsFree e a w.state
unfolding evaluate run_step
evaluate-IsFree e a w d buys plain h =
    let (end, walked, _) = >>=-eq-pass (walk_steps e a step_ids w) _ h in
    let (w0, first, t0) = walk_steps-append e a (take 9 step_ids) (drop 9 step_ids) w end walked in
    let same0 = walk_early-Same e a (take 9 step_ids) w w0 early_part first in
    let runs = λ (s : Step) (again : is_recheck s ≡ true). runs_for_buy a s plain again in
    let (w1, r1, t1) =
      walk_steps-run e a max_open_positions (drop 10 step_ids) w0 end (runs _ refl) t0 in
    let (w2, r2, t2) = walk_steps-run e a already_open (drop 11 step_ids) w1 end (runs _ refl) t1 in
    let (w3, r3, t3) =
      walk_steps-run e a creator_already_open (drop 12 step_ids) w2 end (runs _ refl) t2 in
    let (f1, s1) = refuse_if-pass _ _ w0 w1 r1 in
    let (f2, s2) = refuse_if-pass _ _ w1 w2 r2 in
    let f3 = (refuse_if-pass _ _ w2 w3 r3).0 in
    let state1 : w1.state ≡ w.state = ap (λ (v : Walk). v.state) (sym s1) ∙ same0.0 in
    let state2 : w2.state ≡ w.state = ap (λ (v : Walk). v.state) (sym s2) ∙ state1 in
    record {
      slot =
          subst (λ s. leb_ℤ e.max_open_positions (open_count s) ≡ false) same0.0
            (and-false buys f1);
      not_held =
          subst (λ s. holds_units (lookup a.order.mint s.positions) ≡ false) state1
            (and-false buys f2);
      creator_free =
          subst
            (λ s.
              e.one_position_per_creator ≡ true
              → str_eq (creator_for e a s) "" ≡ false
              → creator_open (creator_for e a s) s.positions ≡ false)
            state2 (creator_refused buys f3);
    }
