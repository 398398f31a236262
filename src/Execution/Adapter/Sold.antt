-- ===== src/Execution/Adapter/Sold.antt =====
-- What an exit that settles has passed: src/pumpgrok/execution/paper_adapter, sell.py and
-- sell_stages.py.
use pump_grok.Prelude.{
  ◌∙◌, false, String, Option, some, List, ◌≡◌, refl, inl, inr, Bool-cases, subst, sym, ap, arith,
}
use pump_grok.Prelude.Int.{ℤ, pos, ◌-ℤ◌, ◌≤ℤ◌, ltb_ℤ, leb_ℤ, min_ℤ, min_ℤ-le_left, min_ℤ-le_right}
use pump_grok.Prelude.Dict.{lookup}
use pump_grok.Prelude.Decimal.{Decimal}
use pump_grok.Ledger.Events.{Body}
use pump_grok.Ledger.State.{LedgerState, PositionView}
use pump_grok.Execution.Curve.{sell_out}
use pump_grok.Execution.Curve.Bounds.{sell_out-IsOut}
use pump_grok.Execution.Adapter.Model.{
  CurveSnapshot, Venue, Placing, done, >>=-eq-done, done-injective, or_raise, fill_cap, floor_of,
  slippage_bps, kept_share,
}
use pump_grok.Execution.Adapter.Confirm.{
  Found, await_confirmation, IsAwaited, await_confirmation-IsAwaited,
}
use pump_grok.Execution.Adapter.Bought.{or_raise-done}
use pump_grok.Execution.Adapter.Sell.{
  SellPlan, sell_units, open_units, held_units, sell_targets, plan_sell, after_venue_fee,
  holding_at_confirming, slippage_at_confirming, sell_figures, sell_rows, finish_sell, place_sell,
}

-- The sizing of an exit that is not refused.
pub record IsTarget (v : Venue) (p : Placing) (curve0 : CurveSnapshot) (s : LedgerState)
    (targets : ℤ × ℤ) : Type 0 where
  pub asked : targets.0 ≡ sell_units p.request curve0
  pub some_asked : pos 1 ≤ℤ sell_units p.request curve0
  pub le_asked : targets.1 ≤ℤ sell_units p.request curve0
  pub le_cap : targets.1 ≤ℤ fill_cap v curve0.t_units
  pub floor : floor_of v (sell_units p.request curve0) ≤ℤ curve0.t_units

pub sell_targets-IsTarget :
    (v : Venue) (p : Placing) (curve0 : CurveSnapshot) (s : LedgerState) (targets : ℤ × ℤ)
    → sell_targets v p curve0 s ≡ done targets
    → IsTarget v p curve0 s targets
unfolding sell_targets
sell_targets-IsTarget v p curve0 s targets h =
    let units = sell_units p.request curve0 in
    let available = open_units (lookup p.request.mint s.positions) in
    elim (Bool-cases (leb_ℤ available (pos 0))) [
      | inl e ↦ let stuck = rw e at h in cc
      | inr e ↦ elim (Bool-cases (leb_ℤ units (pos 0))) [
        | inl f ↦ let stuck = rw (e, f) at h in cc
        | inr f ↦ elim (Bool-cases (ltb_ℤ curve0.t_units (floor_of v units))) [
          | inl g ↦ let stuck = rw (e, f, g) at h in cc
          | inr g ↦
              let cap = fill_cap v curve0.t_units in
              let inner = min_ℤ units cap in
              subst (IsTarget v p curve0 s) (done-injective _ targets (rw (e, f, g) at h)) (record {
                asked = refl;
                some_asked = ground arith;
                le_asked = omega (arith, min_ℤ-le_left inner available, min_ℤ-le_left units cap);
                le_cap = omega (arith, min_ℤ-le_left inner available, min_ℤ-le_right units cap);
                floor = ground arith;
              })
        ]
      ]
    ]

-- An exit's plan keeps its targets, and quotes what the curve pays for them after the venue's fee.
pub record IsPlan (v : Venue) (p : Placing) (curve0 : CurveSnapshot) (targets : ℤ × ℤ)
    (plan : SellPlan) : Type 0 where
  pub gross0 : ℤ
  pub quoted : sell_out curve0.s_lamports curve0.t_units targets.1 ≡ some gross0
  pub out_eq : plan.out0 ≡ after_venue_fee v gross0
  pub units_eq : plan.units ≡ targets.0
  pub filled_eq : plan.filled_units ≡ targets.1
  pub limit : plan.threshold ≡ kept_share plan.out0 (pos 10_000 -ℤ slippage_bps v p.request)
  pub share : plan.fraction ≡ v.ratio targets.1 targets.0

pub plan_sell-IsPlan :
    (v : Venue) (p : Placing) (curve0 : CurveSnapshot) (targets : ℤ × ℤ) (plan : SellPlan)
    → plan_sell v p curve0 targets ≡ done plan
    → IsPlan v p curve0 targets plan
unfolding plan_sell
plan_sell-IsPlan v p curve0 (units, amount) plan h =
    let (gross0, out, last) =
      >>=-eq-done (or_raise (sell_out curve0.s_lamports curve0.t_units amount)) _ h in
    subst (IsPlan v p curve0 (units, amount)) (done-injective _ plan last) (record {
      gross0 = gross0;
      quoted = or_raise-done _ out;
      out_eq = refl;
      units_eq = refl;
      filled_eq = refl;
      limit = refl;
      share = refl;
    })

-- The exit fits the holding at CONFIRMING.
holding-le :
    (p : Placing) (plan : SellPlan) (o position : Option PositionView)
    → holding_at_confirming p plan o ≡ done position
    → (plan.filled_units ≤ℤ held_units o) × (o ≡ position)
unfolding holding_at_confirming
holding-le p plan o position h = elim (Bool-cases (ltb_ℤ (held_units o) plan.filled_units)) [
  | inl e ↦ let stuck = rw e at h in cc
  | inr e ↦ (ground arith, done-injective o position (rw e at h))
]

slippage_lem :
    (v : Venue) (p : Placing) (plan : SellPlan) (curve1 : CurveSnapshot) (gross1 out1 : ℤ)
    → slippage_at_confirming v p plan curve1 ≡ done (gross1, out1)
    → (sell_out curve1.s_lamports curve1.t_units plan.filled_units ≡ some gross1)
      × (out1 ≡ after_venue_fee v gross1)
      × (plan.threshold ≤ℤ out1)
unfolding slippage_at_confirming
slippage_lem v p plan curve1 gross1 out1 h =
    let (gross, priced, rest) =
      >>=-eq-done (or_raise (sell_out curve1.s_lamports curve1.t_units plan.filled_units)) _ h in
    elim (Bool-cases (ltb_ℤ (after_venue_fee v gross) plan.threshold)) [
      | inl e ↦ let stuck = rw e at rest in cc
      | inr e ↦
          let same =
            done-injective (gross, after_venue_fee v gross) (gross1, out1) (rw e at rest) in
          let gross_eq = ap (λ x. x.0) same in
          let out_eq = ap (λ x. x.1) same in
          (
            cc (or_raise-done _ priced, gross_eq),
            cc (gross_eq, out_eq),
            subst (λ n. plan.threshold ≤ℤ n) out_eq (ground arith),
          )
    ]

-- A settled exit, by its plan, the curve read at CONFIRMING and the gross amount there.
pub record IsSold (v : Venue) (p : Placing) (seconds_since : String → Option ℤ)
    (curve0 : CurveSnapshot) (found : Found) (latency : Decimal) (now : LedgerState)
    (rows : List Body) (plan : SellPlan) (curve1 : CurveSnapshot) (gross1 : ℤ) : Type 0 where
  pub floor : floor_of v (sell_units p.request curve0) ≤ℤ curve0.t_units
  pub asked : plan.units ≡ sell_units p.request curve0
  pub filled-le_asked : plan.filled_units ≤ℤ plan.units
  pub filled-le_cap : plan.filled_units ≤ℤ fill_cap v curve0.t_units
  pub filled-le_held : plan.filled_units ≤ℤ held_units (lookup p.request.mint now.positions)
  pub filled : pos 1 ≤ℤ plan.filled_units
  pub gross0 : ℤ
  pub quoted : sell_out curve0.s_lamports curve0.t_units plan.filled_units ≡ some gross0
  pub quote_out : plan.out0 ≡ after_venue_fee v gross0
  pub threshold : plan.threshold ≡ kept_share plan.out0 (pos 10_000 -ℤ slippage_bps v p.request)
  pub limit : plan.threshold ≤ℤ after_venue_fee v gross1
  pub priced : sell_out curve1.s_lamports curve1.t_units plan.filled_units ≡ some gross1
  pub awaited : IsAwaited p false found curve1
  pub rows_eq :
      rows
      ≡ sell_rows v p seconds_since plan curve0 curve1 latency
          (sell_figures v p plan gross1 (after_venue_fee v gross1))
          (lookup p.request.mint now.positions)

-- An exit settles only if the confirmation let it through. It then sells at least one unit and at
-- most the units asked for, the adapter's share of the decision reserves, and the units held at
-- CONFIRMING, even when another exit was settled since it was accepted; it brings in, after the
-- venue's fee, at least the share that the slippage limit leaves of what the curve paid for the same
-- units at the decision; and the ledger gets its fill row, with a row that closes the position if
-- it is emptied.
pub place_sell-IsSold :
    (v : Venue) (p : Placing) (seconds_since : String → Option ℤ) (curve0 : CurveSnapshot)
    (s : LedgerState) (found : Found) (latency : Decimal) (now : LedgerState) (rows : List Body)
    → place_sell v p seconds_since curve0 s found latency now ≡ done rows
    → (plan : SellPlan) × (curve1 : CurveSnapshot) × (gross1 : ℤ) × IsSold v p seconds_since curve0
        found latency now rows plan curve1 gross1
unfolding place_sell finish_sell
place_sell-IsSold v p seconds_since curve0 s found latency now rows h =
    let (targets, first, h1) = >>=-eq-done (sell_targets v p curve0 s) _ h in
    let (plan, second, h2) = >>=-eq-done (plan_sell v p curve0 targets) _ h1 in
    let ((curve1, cap), third, h3) = >>=-eq-done (await_confirmation p false found) _ h2 in
    let (position, fourth, h4) =
      >>=-eq-done (holding_at_confirming p plan (lookup p.request.mint now.positions)) _ h3 in
    let ((gross1, out1), fifth, h5) = >>=-eq-done (slippage_at_confirming v p plan curve1) _ h4 in
    let target = sell_targets-IsTarget v p curve0 s targets first in
    let planned = plan_sell-IsPlan v p curve0 targets plan second in
    let (awaited, capped) = await_confirmation-IsAwaited p false found curve1 cap third in
    let (held, same) = holding-le p plan (lookup p.request.mint now.positions) position fourth in
    let (priced, out_eq, limit) = slippage_lem v p plan curve1 gross1 out1 fifth in
    let amount = sym planned.filled_eq in
    let asked = planned.units_eq ∙ target.asked in
    (
      plan,
      curve1,
      gross1,
      record {
        floor = target.floor;
        asked = asked;
        filled-le_asked =
            subst (λ n. plan.filled_units ≤ℤ n) (sym asked)
              (subst (λ n. n ≤ℤ sell_units p.request curve0) amount target.le_asked);
        filled-le_cap = subst (λ n. n ≤ℤ fill_cap v curve0.t_units) amount target.le_cap;
        filled-le_held = held;
        filled =
            (sell_out-IsOut curve1.s_lamports curve1.t_units plan.filled_units gross1 priced).paid;
        gross0 = planned.gross0;
        quoted =
            subst (λ n. sell_out curve0.s_lamports curve0.t_units n ≡ some planned.gross0) amount
              planned.quoted;
        quote_out = planned.out_eq;
        threshold = planned.limit;
        limit = subst (λ n. plan.threshold ≤ℤ n) out_eq limit;
        priced = priced;
        awaited = awaited;
        rows_eq = sym (
            subst
              (λ o.
                sell_rows v p seconds_since plan curve0 curve1 latency
                  (sell_figures v p plan gross1 (after_venue_fee v gross1)) o
                ≡ rows)
              (sym same)
              (subst
                (λ n.
                  sell_rows v p seconds_since plan curve0 curve1 latency
                    (sell_figures v p plan gross1 n) position
                  ≡ rows)
                out_eq (done-injective _ rows h5)));
      },
    )
