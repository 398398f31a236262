-- ===== src/Execution/Adapter/Bought.antt =====
-- What a buy that settles has passed: src/pumpgrok/execution/paper_adapter/buy.py.
use pump_grok.Prelude.{
  true, false, String, Option, none, some, List, ◌≡◌, refl, inl, inr, Bool-cases, subst, sym, ap,
  arith,
}
use pump_grok.Prelude.Int.{
  ℤ, pos, ◌+ℤ◌, ◌-ℤ◌, ◌≤ℤ◌, ltb_ℤ, leb_ℤ, min_ℤ, min_ℤ-le_left, min_ℤ-le_right,
}
use pump_grok.Prelude.Dict.{lookup}
use pump_grok.Prelude.Decimal.{Decimal}
use pump_grok.Ledger.Events.{Body}
use pump_grok.Ledger.State.{LedgerState}
use pump_grok.Core.Order.{eqb_ℤ}
use pump_grok.Execution.Curve.{buy_out}
use pump_grok.Execution.Curve.Bounds.{buy_out-IsOut}
use pump_grok.Execution.Fees.{venue_fee}
use pump_grok.Execution.Adapter.Model.{
  CurveSnapshot, Venue, Placing, done, >>=-eq-done, done-injective, or_raise, fill_cap, floor_of,
  slippage_bps, kept_share,
}
use pump_grok.Execution.Adapter.Confirm.{
  Found, await_confirmation, IsAwaited, await_confirmation-IsAwaited,
}
use pump_grok.Execution.Adapter.Buy.{
  BuyQuote, BuyConfirmed, priced_at, buy_sizing, buy_recap, buy_guard_slippage, buy_confirm,
  buy_settle, buy_fill_rows, is_held, place_buy,
}

pub or_raise-done {ℓ} : {A : Type ℓ} (o : Option A) {a : A} → or_raise o ≡ done a → o ≡ some a
or_raise-done none e = cc
or_raise-done (some a) e = cc

-- A quote that the sizing gives for a fill of `amount`.
pub record IsPriced (v : Venue) (curve0 : CurveSnapshot) (size amount slippage : ℤ) (q : BuyQuote)
    : Type 0 where
  pub sized : q.size ≡ size
  pub filled_eq : q.filled ≡ amount
  pub net : q.x_net ≡ amount -ℤ venue_fee v.fees amount
  pub fee : q.venue_fee ≡ venue_fee v.fees amount
  pub bps : q.slippage_bps ≡ slippage
  pub quoted : buy_out curve0.s_lamports curve0.t_units q.x_net ≡ some q.out0
  pub limit : q.threshold ≡ kept_share q.out0 (pos 10_000 -ℤ slippage)
  pub share : q.fraction ≡ v.ratio amount size

priced_at-IsPriced :
    (v : Venue) (curve0 : CurveSnapshot) (size amount slippage : ℤ) (q : BuyQuote)
    → priced_at v curve0 size amount slippage ≡ done q
    → IsPriced v curve0 size amount slippage q
unfolding priced_at
priced_at-IsPriced v curve0 size amount slippage q h = elim (Bool-cases (eqb_ℤ size (pos 0))) [
  | inl e ↦ let stuck = rw e at h in cc
  | inr e ↦
      let (out0, out, last) = >>=-eq-done (or_raise _) _ (rw e at h) in
      subst (IsPriced v curve0 size amount slippage) (done-injective _ q last) (record {
        sized = refl;
        filled_eq = refl;
        net = refl;
        fee = refl;
        bps = refl;
        quoted = or_raise-done _ out;
        limit = refl;
        share = refl;
      })
]

-- The size's own limits: the venue's floor, and the fill cap.
pub record IsSized (v : Venue) (p : Placing) (curve0 : CurveSnapshot) (size : ℤ) (q : BuyQuote)
    : Type 0 where
  pub floor : floor_of v size ≤ℤ curve0.s_lamports
  pub amount : ℤ
  pub amount-le_size : amount ≤ℤ size
  pub amount-le_cap : amount ≤ℤ fill_cap v curve0.s_lamports
  pub priced : IsPriced v curve0 size amount (slippage_bps v p.request) q

pub buy_sizing-IsSized :
    (v : Venue) (p : Placing) (size : ℤ) (curve0 : CurveSnapshot) (q : BuyQuote)
    → buy_sizing v p size curve0 ≡ done q
    → IsSized v p curve0 size q
unfolding buy_sizing
buy_sizing-IsSized v p size curve0 q h =
    elim (Bool-cases (ltb_ℤ curve0.s_lamports (floor_of v size))) [
      | inl e ↦ let stuck = rw e at h in cc
      | inr e ↦ record {
        floor = ground arith;
        amount = min_ℤ size (fill_cap v curve0.s_lamports);
        amount-le_size = min_ℤ-le_left size (fill_cap v curve0.s_lamports);
        amount-le_cap = min_ℤ-le_right size (fill_cap v curve0.s_lamports);
        priced = priced_at-IsPriced v curve0 size _ _ q (rw e at h);
      }
    ]

-- At most a bound, where there is one.
abbrev pub AtMost : ℤ → Option ℤ → Type 0
AtMost a none = Unit
AtMost a (some b) = a ≤ℤ b

-- A recap prices again, for a smaller amount that the recomputed cap allows.
buy_recap-IsSized :
    (v : Venue) (p : Placing) (size : ℤ) (curve0 : CurveSnapshot) (q q' : BuyQuote) (cap : Option ℤ)
    → IsSized v p curve0 size q
    → buy_recap v q curve0 cap ≡ done q'
    → IsSized v p curve0 size q' × AtMost q'.filled cap
unfolding buy_recap
buy_recap-IsSized v p size curve0 q q' none w h =
    (subst (IsSized v p curve0 size) (done-injective q q' h) w, tt)
buy_recap-IsSized v p size curve0 q q' (some now) w h = elim (Bool-cases (leb_ℤ q.filled now)) [
  | inl e ↦
      let same = done-injective q q' (rw e at h) in
      (subst (IsSized v p curve0 size) same w, ground (arith, ap (λ x. x.filled) same))
  | inr e ↦
      let again = priced_at-IsPriced v curve0 q.size now q.slippage_bps q' (rw e at h) in
      let lower : now ≤ℤ w.amount = ground (arith, w.priced.filled_eq) in
      (
        record {
          floor = w.floor;
          amount = now;
          amount-le_size = omega (arith, w.amount-le_size, lower);
          amount-le_cap = omega (arith, w.amount-le_cap, lower);
          priced =
              subst (λ n. IsPriced v curve0 n now (slippage_bps v p.request) q') w.priced.sized
                (subst (λ n. IsPriced v curve0 q.size now n q') w.priced.bps again);
        },
        ground (arith, again.filled_eq),
      )
]

buy_guard-leb :
    (v : Venue) (p : Placing) (q : BuyQuote) (out1 : ℤ) (u : Unit {0})
    → buy_guard_slippage v p q out1 ≡ done u
    → q.threshold ≤ℤ out1
unfolding buy_guard_slippage
buy_guard-leb v p q out1 u h = elim (Bool-cases (leb_ℤ q.threshold out1)) [
  | inl e ↦ ground arith
  | inr e ↦ let stuck = rw e at h in cc
]

-- A buy that CONFIRMING let through.
pub record IsConfirmed (v : Venue) (p : Placing) (size : ℤ) (curve0 : CurveSnapshot) (found : Found)
    (c : BuyConfirmed) : Type 0 where
  pub floor : floor_of v size ≤ℤ curve0.s_lamports
  pub filled-le_size : c.filled ≤ℤ size
  pub filled-le_cap : c.filled ≤ℤ fill_cap v curve0.s_lamports
  pub recapped : AtMost c.filled found.size_lamports
  pub net : c.x_net ≡ c.filled -ℤ venue_fee v.fees c.filled
  pub quoted : buy_out curve0.s_lamports curve0.t_units c.x_net ≡ some c.out0
  pub threshold : c.threshold ≡ kept_share c.out0 (pos 10_000 -ℤ slippage_bps v p.request)
  pub limit : c.threshold ≤ℤ c.out1
  pub priced : buy_out c.curve1.s_lamports c.curve1.t_units c.x_net ≡ some c.out1
  pub awaited : IsAwaited p true found c.curve1
  pub share : c.fraction ≡ v.ratio c.filled size

pub buy_confirm-IsConfirmed :
    (v : Venue) (p : Placing) (size : ℤ) (q : BuyQuote) (curve0 : CurveSnapshot) (found : Found)
    (latency : Decimal) (c : BuyConfirmed)
    → IsSized v p curve0 size q
    → buy_confirm v p q curve0 found latency ≡ done c
    → IsConfirmed v p size curve0 found c
unfolding buy_confirm
buy_confirm-IsConfirmed v p size q curve0 found latency c w h =
    let ((curve1, cap), first, h1) = >>=-eq-done (await_confirmation p true found) _ h in
    let (priced, second, h2) = >>=-eq-done (buy_recap v q curve0 cap) _ h1 in
    let (out1, third, h3) =
      >>=-eq-done (or_raise (buy_out curve1.s_lamports curve1.t_units priced.x_net)) _ h2 in
    let (u, fourth, h4) = >>=-eq-done (buy_guard_slippage v p priced out1) _ h3 in
    let (awaited, capped) = await_confirmation-IsAwaited p true found curve1 cap first in
    let (sized, at_most) = buy_recap-IsSized v p size curve0 q priced cap w second in
    subst (IsConfirmed v p size curve0 found) (done-injective _ c h4) (record {
      floor = sized.floor;
      filled-le_size = subst (λ n. n ≤ℤ size) (sym sized.priced.filled_eq) sized.amount-le_size;
      filled-le_cap =
          subst (λ n. n ≤ℤ fill_cap v curve0.s_lamports) (sym sized.priced.filled_eq)
            sized.amount-le_cap;
      recapped = subst (AtMost priced.filled) (sym capped) at_most;
      net =
          subst (λ n. priced.x_net ≡ n -ℤ venue_fee v.fees n) (sym sized.priced.filled_eq)
            sized.priced.net;
      quoted = sized.priced.quoted;
      threshold = sized.priced.limit;
      limit = buy_guard-leb v p priced out1 u fourth;
      priced = or_raise-done _ third;
      awaited = awaited;
      share =
          subst (λ n. priced.fraction ≡ v.ratio n size) (sym sized.priced.filled_eq)
            sized.priced.share;
    })

eqb-false-pos : (n : ℤ) → pos 0 ≤ℤ n → eqb_ℤ n (pos 0) ≡ false → pos 1 ≤ℤ n
eqb-false-pos n h e = ground arith

-- A settled buy: its rows, and that at least one unit was bought.
pub record IsBought (v : Venue) (p : Placing) (size : ℤ) (curve0 : CurveSnapshot) (found : Found)
    (now_ts : String) (s : LedgerState) (rows : List Body) (c : BuyConfirmed) : Type 0 where
  pub confirmed : IsConfirmed v p size curve0 found c
  pub bought : pos 1 ≤ℤ c.out1
  pub below : c.out1 +ℤ pos 1 ≤ℤ c.curve1.t_units
  pub rows_eq :
      rows ≡ buy_fill_rows v p curve0 c now_ts (is_held (lookup p.request.mint s.positions))

-- A buy settles only if the confirmation let it through (in time, not cancelled, not refused, not
-- dropped, on a readable curve that has not graduated). It then fills at most the size asked for,
-- the adapter's share of the decision reserves, and the size that the engine recomputed; it
-- receives the quote's kept share of units or more, at least one unit and less than the whole
-- reserve; and the ledger gets its fill row, with a row that opens the position if none is held.
pub place_buy-IsBought :
    (v : Venue) (p : Placing) (size : ℤ) (curve0 : CurveSnapshot) (found : Found)
    (latency : Decimal) (now_ts : String) (s : LedgerState) (rows : List Body)
    → place_buy v p size curve0 found latency now_ts s ≡ done rows
    → (c : BuyConfirmed) × IsBought v p size curve0 found now_ts s rows c
unfolding place_buy buy_settle
place_buy-IsBought v p size curve0 found latency now_ts s rows h =
    let (quote, first, h1) = >>=-eq-done (buy_sizing v p size curve0) _ h in
    let (c, second, h2) = >>=-eq-done (buy_confirm v p quote curve0 found latency) _ h1 in
    let sized = buy_sizing-IsSized v p size curve0 quote first in
    let confirmed = buy_confirm-IsConfirmed v p size quote curve0 found latency c sized second in
    let out = buy_out-IsOut c.curve1.s_lamports c.curve1.t_units c.x_net c.out1 confirmed.priced in
    (
      c,
      elim (Bool-cases (eqb_ℤ c.out1 (pos 0))) [
        | inl e ↦ let stuck = rw e at h2 in cc
        | inr e ↦ record {
          confirmed = confirmed;
          bought = eqb-false-pos c.out1 out.nonneg e;
          below = out.below;
          rows_eq = sym (done-injective _ rows (rw e at h2));
        }
      ],
    )
