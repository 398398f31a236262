-- ===== src/Execution/Orders/Single.antt =====
-- Placements that interleave on one ledger: src/pumpgrok/execution/paper_adapter. A placement is
-- uninterrupted between the waits of its risk check, curve read and latency.
use pump_grok.Prelude.{
  ◌≤◌, Bool, true, false, String, Option, none, some, List, [], ◌∷◌, ◌≡◌, refl, ap, subst, ◌∙◌, inl,
  inr, Bool-cases, Option-cases, arith,
}
use pump_grok.Prelude.Int.{ℤ, pos}
use pump_grok.Prelude.Dict.{lookup}
use pump_grok.Prelude.Decimal.{Decimal}
use pump_grok.Ledger.Events.{Body, fill_recorded, position_opened, position_closed}
use pump_grok.Ledger.State.{LedgerState, PositionView}
use pump_grok.Core.Order.{Side, buy, sell, eqb_ℤ}
use pump_grok.Core.Idempotency.{Codec, exec_place_key}
use pump_grok.Risk.KillSwitch.Model.{Logged}
use pump_grok.Execution.Adapter.Model.{
  CurveSnapshot, Venue, Placing, Refusal, Staged, done, refused, raised, >>=-eq-done,
  done-injective,
}
use pump_grok.Execution.Adapter.Confirm.{await_confirmation}
use pump_grok.Execution.Adapter.Buy.{
  BuyConfirmed, buy_sizing, buy_confirm, buy_settle, buy_fill_rows, is_held,
}
use pump_grok.Execution.Adapter.Sell.{
  SellPlan, SellFigures, sell_targets, plan_sell, holding_at_confirming, slippage_at_confirming,
  sell_figures, sell_rows, closing_rows,
}
use pump_grok.Execution.Orders.Journal.{append_rows}
use pump_grok.Execution.Orders.Batch.{Quote, submit_order, consume_key}
use pump_grok.Risk.Claim.{Desk}
use pump_grok.Risk.Engine.Model.{Ask, Walk, Outcome}
use pump_grok.Risk.Engine.Decide.{Decision, decide, decide-IsNamed}
use pump_grok.Execution.Orders.Sizing.{
  Settlement, Accepted, Run, impact_buy, impact_sell, buy_finish, sell_finish, size_order,
}
use pump_grok.Execution.Orders.Place.{keyed, raise_refusal, settle_order}
use pump_grok.Execution.Orders.Unique.{
  count_key, count_orders, is_keyed, all_keyed, IsSingle, append_rows-IsSingle, count_orders-le,
  count_spends, count_spends-le,
}
use pump_grok.Execution.Orders.Segments.{
  Grows, same, grown, raise_refusal-Grows, ledger_of, submit_order-Grows,
}

-- Rows that a settlement writes.
unfoldable is_settlement : List Body → Bool
is_settlement [] = true
is_settlement (fill_recorded r ∷ bodies) = is_settlement bodies
is_settlement (position_opened r ∷ bodies) = is_settlement bodies
is_settlement (position_closed r ∷ bodies) = is_settlement bodies
is_settlement (body ∷ bodies) = false

keyed-all_keyed :
    (c : Codec) (id : String) (bodies : List Body)
    → is_settlement bodies ≡ true
    → all_keyed c (keyed id bodies) ≡ true
unfolding is_settlement all_keyed is_keyed keyed
keyed-all_keyed c id [] h = refl
keyed-all_keyed c id (fill_recorded r ∷ bodies) h = keyed-all_keyed c id bodies h
keyed-all_keyed c id (position_opened r ∷ bodies) h = keyed-all_keyed c id bodies h
keyed-all_keyed c id (position_closed r ∷ bodies) h = keyed-all_keyed c id bodies h
keyed-all_keyed c id (body ∷ bodies) h = cc

buy_rows-settle :
    (v : Venue) (p : Placing) (curve0 : CurveSnapshot) (c : BuyConfirmed) (now_ts : String)
    (s : LedgerState) (bodies : List Body)
    → buy_settle v p curve0 c now_ts s ≡ done bodies
    → is_settlement bodies ≡ true
unfolding buy_settle buy_fill_rows is_settlement
buy_rows-settle v p curve0 c now_ts s bodies h = elim (Bool-cases (eqb_ℤ c.out1 (pos 0))) [
  | inl e ↦ let stuck = rw (buy_settle, e) at h in cc
  | inr e ↦
      subst (λ x. is_settlement x ≡ true) (done-injective _ bodies (rw (buy_settle, e) at h))
        (by_holding (is_held (lookup p.request.mint s.positions)))
]
  where
    by_holding : (b : Bool) → is_settlement (buy_fill_rows v p curve0 c now_ts b) ≡ true
    by_holding true = unfold buy_fill_rows in unfold is_settlement in refl
    by_holding false = unfold buy_fill_rows in unfold is_settlement in refl

sell_rows-settle :
    (v : Venue) (p : Placing) (since : String → Option ℤ) (plan : SellPlan)
    (curve0 curve1 : CurveSnapshot) (latency : Decimal) (figures : SellFigures)
    (position : Option PositionView)
    → is_settlement (sell_rows v p since plan curve0 curve1 latency figures position) ≡ true
unfolding sell_rows closing_rows is_settlement
sell_rows-settle v p since plan curve0 curve1 latency figures none = refl
sell_rows-settle v p since plan curve0 curve1 latency figures (some position) = ground arith

size_order-settlement :
    (v : Venue) (r : Run) (side : Side) (size : ℤ) (curve0 : CurveSnapshot) (s later : LedgerState)
    (a : Accepted) (t : Settlement)
    → size_order v r side size curve0 s ≡ done a
    → a.finish later ≡ done t
    → is_settlement t.bodies ≡ true
unfolding size_order buy_finish sell_finish
size_order-settlement v r buy size curve0 s later a t h ended =
    let (quote, sizing, h1) = >>=-eq-done (buy_sizing v r.p size curve0) _ h in
    let (impact, pricing, h2) = >>=-eq-done (impact_buy v curve0.s_lamports quote.filled) _ h1 in
    let finished = ap (λ x. x.finish later) (done-injective _ a h2) ∙ ended in
    let (c, confirming, h3) =
      >>=-eq-done (buy_confirm v r.p quote curve0 r.found r.latency) _ finished in
    let (bodies, settling, h4) = >>=-eq-done (buy_settle v r.p curve0 c r.now_ts later) _ h3 in
    subst (λ x. is_settlement x.bodies ≡ true) (done-injective _ t h4)
      (buy_rows-settle v r.p curve0 c r.now_ts later bodies settling)
size_order-settlement v r sell size curve0 s later a t h ended =
    let (targets, sizing, h1) = >>=-eq-done (sell_targets v r.p curve0 s) _ h in
    let (plan, planning, h2) = >>=-eq-done (plan_sell v r.p curve0 targets) _ h1 in
    let (impact, pricing, h3) = >>=-eq-done (impact_sell v curve0.t_units plan.filled_units) _ h2 in
    let finished = ap (λ x. x.finish later) (done-injective _ a h3) ∙ ended in
    let ((curve1, cap), awaiting, h4) =
      >>=-eq-done (await_confirmation r.p false r.found) _ finished in
    let (position, holding, h5) =
      >>=-eq-done (holding_at_confirming r.p plan (lookup r.p.request.mint later.positions)) _ h4 in
    let ((gross1, out1), slipping, h6) =
      >>=-eq-done (slippage_at_confirming v r.p plan curve1) _ h5 in
    subst (λ x. is_settlement x.bodies ≡ true) (done-injective _ t h6)
      (sell_rows-settle v r.p r.since plan curve0 curve1 r.latency
        (sell_figures v r.p plan gross1 out1) position)

module _ (c : Codec) (v : Venue) (describe : Refusal → String) where
  -- One uninterrupted part of a placement, under a decision of the engine, or an append of other rows,
  -- none of which places an order or consumes an approval for one under another key.
  pub data Step (rows : List Logged) : List Logged → Type 0 where
    refuses :
        (p : Placing) (r : Refusal) (detail : String) → Step rows (raise_refusal p r detail rows).1
    submits :
        (p : Placing) (q : Quote) (order_hash : String) (a : Ask) (o : Outcome Walk)
        (claimed : Option (Bool × Desk)) (d : Decision)
        → decide order_hash a o claimed ≡ some d
        → Step rows (ledger_of (submit_order c p q d rows))
    settles :
        (r : Run) (side : Side) (size : ℤ) (curve0 : CurveSnapshot) (s later : LedgerState)
        (a : Accepted)
        → size_order v r side size curve0 s ≡ done a
        → Step rows (settle_order r.p describe (a.finish later) rows).1
    appends :
        {rows' : List Logged} (batch : List Logged)
        → all_keyed c batch ≡ true
        → append_rows rows batch ≡ some rows'
        → Step rows rows'

  -- A ledger that placements and other appends lead to, in any order.
  pub data Reach : List Logged → Type 0 where
    empty : Reach []
    later : {rows rows' : List Logged} → Reach rows → Step rows rows' → Reach rows'

  settle_order-Grows :
      (p : Placing) (stage : Staged Settlement) (rows : List Logged)
      → ((t : Settlement) → stage ≡ done t → is_settlement t.bodies ≡ true)
      → Grows c rows (settle_order p describe stage rows).1
  unfolding settle_order
  settle_order-Grows p raised rows written = same
  settle_order-Grows p (refused r) rows written = raise_refusal-Grows c p r (describe r) rows
  settle_order-Grows p (done t) rows written =
      elim (Option-cases (append_rows rows (keyed p.order_id t.bodies))) [
        | inl e ↦ rw (settle_order, e) same
        | inr (left, e) ↦
            rw (settle_order, e)
              (grown (keyed p.order_id t.bodies)
                (keyed-all_keyed c p.order_id t.bodies (written t refl)) e)
      ]

  Step-Grows : {rows rows' : List Logged} → Step rows rows' → Grows c rows rows'
  Step-Grows {rows} (refuses p r detail) = raise_refusal-Grows c p r detail rows
  Step-Grows {rows} (submits p q order_hash a o claimed d decided) =
      submit_order-Grows c p q d rows (decide-IsNamed order_hash a o claimed d decided)
  Step-Grows {rows} (settles r side size curve0 s after a sized) =
      settle_order-Grows r.p (a.finish after) rows
        (λ t. size_order-settlement v r side size curve0 s after a t sized)
  Step-Grows (appends batch b h) = grown batch b h

  Grows-IsSingle :
      {rows rows' : List Logged} → IsSingle c rows → Grows c rows rows' → IsSingle c rows'
  Grows-IsSingle w same = w
  Grows-IsSingle {rows} {rows'} w (grown batch b h) = append_rows-IsSingle c rows batch rows' w b h

  Reach-IsSingle : {rows : List Logged} → Reach rows → IsSingle c rows
  unfolding count_key all_keyed
  Reach-IsSingle empty = record { unique = λ k. omega arith; keyed = refl }
  Reach-IsSingle (later reach step) = Grows-IsSingle (Reach-IsSingle reach) (Step-Grows step)

  -- However placements interleave with each other and with the other writers of the ledger, none of
  -- which places an order under a key other than its decision's or consumes an approval for an order
  -- under a key other than that approval's, a decision on a ticket and a side places at most one
  -- order, and an approval is consumed for an order at most once. (The clears of a kill switch and
  -- of a halt consume their own approvals, which are not counted.)
  pub Reach-single_send :
      {rows : List Logged} (ticket_id side decision_id approval_id : String)
      → Reach rows
      → (count_orders ticket_id side decision_id rows ≤ 1) × (count_spends approval_id rows ≤ 1)
  Reach-single_send {rows} ticket_id side decision_id approval_id reach =
      let w = Reach-IsSingle reach in
      (
        omega (
          arith,
          count_orders-le c ticket_id side decision_id rows w.keyed,
          w.unique (exec_place_key c ticket_id side decision_id),
        ),
        omega
            (arith, count_spends-le c approval_id rows w.keyed, w.unique (consume_key approval_id)),
      )
