-- ===== src/Execution/Adapter/Model.antt =====
-- src/pumpgrok/execution/paper_adapter: the values that an order's stages pass on, and what they
-- read of the adapter.
use pump_grok.Prelude.{Bool, not, ◌&&◌, String, Option, none, some, if◌then◌else◌, ◌≡◌, refl}
use pump_grok.Prelude.Int.{ℤ, pos, ◌-ℤ◌, ◌*ℤ◌, min_ℤ, ltb_ℤ, floor_div}
use pump_grok.Prelude.Decimal.{Decimal}
use pump_grok.Ledger.Events.{EventSource, OrderRejected}
use pump_grok.Core.Order.{OrderRequest, eqb_ℤ}
use pump_grok.Risk.Engine.Limits.{fraction_of}
use pump_grok.Execution.Fees.{FeeModel}

-- `CurveSnapshot`, without the reading's slot and time, which no stage of an order uses.
pub record CurveSnapshot : Type 0 where
  pub s_lamports : ℤ
  pub t_units : ℤ
  pub complete : Bool
  pub price_allowed : Bool

-- The adapter's settings. `ratio a b` is `Decimal(a) / Decimal(b)` for a `b` other than zero, which
-- Python rounds to its context.
pub record Venue : Type 0 where
  pub fees : FeeModel
  pub partial_fill_fraction : Decimal
  pub liquidity_floor_multiple : ℤ
  pub max_slippage_bps : ℤ
  pub ratio : ℤ → ℤ → Decimal

-- What one placement carries: its request, and the identifiers that the factory gives it.
pub record Placing : Type 0 where
  pub request : OrderRequest
  pub ledger_source : EventSource
  pub order_id : String
  pub venue_tx_ref : String
  pub creator : Option String
  pub exit_reason : Option String

-- `_reject`'s arguments. `order_id` is `none` before an order is written.
pub record Refusal : Type 0 where
  pub order_id : Option String
  pub reason : String
  pub stage : String
  pub fees : ℤ
  pub quote_out : ℤ
  pub threshold : ℤ
  pub confirm_out : ℤ

-- A stage gives a value, refuses the order, or raises another error (`ValueError`, or a division
-- of Decimals by zero).
pub data Staged {ℓ} (A : Type ℓ) : Type ℓ where
  done : A → Staged A
  refused : Refusal → Staged A
  raised : Staged A

infixl 5 ◌>>=◌
abbrev pub ◌>>=◌ {ℓ κ} : {A : Type ℓ} {B : Type κ} → Staged A → (A → Staged B) → Staged B
done a >>= f = f a
refused r >>= f = refused r
raised >>= f = raised

pub >>=-eq-done {ℓ κ} :
    {A : Type ℓ} {B : Type κ} (stage : Staged A) (rest : A → Staged B) {out : B}
    → stage >>= rest ≡ done out
    → (value : A) × (stage ≡ done value) × (rest value ≡ done out)
>>=-eq-done (done value) rest eq = (value, refl, eq)
>>=-eq-done (refused r) rest eq = cc
>>=-eq-done raised rest eq = cc

pub done-injective {ℓ} : {A : Type ℓ} (a b : A) → done a ≡ done b → a ≡ b
done-injective a b eq = cc

abbrev pub or_raise {ℓ} : {A : Type ℓ} → Option A → Staged A
or_raise none = raised
or_raise (some a) = done a

-- A refusal before the order is written.
abbrev pub at_accepted : String → Refusal
at_accepted reason = record {
  order_id = none;
  reason = reason;
  stage = "ACCEPTED";
  fees = pos 0;
  quote_out = pos 0;
  threshold = pos 0;
  confirm_out = pos 0;
}

-- A refusal of a written order, without figures.
abbrev pub at_confirming : Placing → String → Refusal
at_confirming p reason = record {
  order_id = some p.order_id;
  reason = reason;
  stage = "CONFIRMING";
  fees = pos 0;
  quote_out = pos 0;
  threshold = pos 0;
  confirm_out = pos 0;
}

-- The payload that `_reject` appends; `detail` is its text, and a missing order id is
-- `unplaced-<decision_id>`.
unfoldable pub refusal_row : Placing → String → String → Refusal → OrderRejected
refusal_row p detail unplaced r = record {
  source = p.ledger_source;
  order_id = elim r.order_id [ none ↦ unplaced | some id ↦ id ];
  decision_id = p.request.decision_id;
  reason = r.reason;
  detail = detail;
  stage = r.stage;
  fees_lamports = r.fees;
  quote_out = r.quote_out;
  other_amount_threshold = r.threshold;
  confirm_out = r.confirm_out;
}

-- `_fill_cap`
unfoldable pub fill_cap : Venue → ℤ → ℤ
unfolding fraction_of
fill_cap v reserve = fraction_of v.partial_fill_fraction reserve

-- `_floor`
unfoldable pub floor_of : Venue → ℤ → ℤ
floor_of v size = v.liquidity_floor_multiple *ℤ size

-- `_slippage_bps`
unfoldable pub slippage_bps : Venue → OrderRequest → ℤ
unfolding min_ℤ
slippage_bps v request = min_ℤ request.max_slippage_bps v.max_slippage_bps

-- `out0 * (10_000 - slippage_bps) // 10_000`, given the difference.
abbrev pub kept_share : ℤ → ℤ → ℤ
kept_share out kept_bps = floor_div (out *ℤ kept_bps) (pos 10_000)

-- `_buy_slippage_bps`, which a sell's figures compute in place.
unfoldable pub realised_bps : ℤ → ℤ → ℤ
unfolding floor_div
realised_bps out0 out1 =
    if ltb_ℤ out1 out0 && not (eqb_ℤ out0 (pos 0))
    then floor_div ((out0 -ℤ out1) *ℤ pos 10_000) out0
    else pos 0
