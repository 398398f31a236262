-- ===== src/Execution/Orders/Fills.antt =====
-- The placements that end in a fill: src/pumpgrok/execution/paper_adapter.
use pump_grok.Prelude.{
  suc, Bool, true, false, String, Option, none, some, List, ◌≡◌, refl, ap, subst, ◌∙◌, inl, inr,
  Bool-cases, Option-cases, str_eq,
}
use pump_grok.Prelude.Lists.{length}
use pump_grok.Core.Idempotency.{Codec}
use pump_grok.Risk.KillSwitch.Model.{Logged}
use pump_grok.Execution.Adapter.Model.{Placing, Refusal, Staged, done, refused, raised, at_accepted}
use pump_grok.Execution.Orders.Journal.{
  Fill, Rejection, Attempt, filled, rejected, in_flight, by_key, append_rows, by_reason,
  rejection_from_row, reject_key, reject, repeat_outcome,
}
use pump_grok.Execution.Orders.Batch.{
  Quote, Written, written, ended, conflict, sent, over, place_key_of, lost_approval, lost_detail,
  write_order_batch, write_decided, append_order_batch, submit_order,
}
use pump_grok.Risk.Engine.Decide.{Decision}
use pump_grok.Execution.Orders.Sizing.{Settlement}
use pump_grok.Execution.Orders.Place.{keyed, raise_refusal, settle_order}

-- Whether a placement ended in a fill.
unfoldable pub is_filled : Attempt → Bool
is_filled (filled f) = true
is_filled a = false

by_reason-is_filled : (x : Rejection) → is_filled (by_reason x) ≡ false
unfolding by_reason is_filled
by_reason-is_filled x = elim (Bool-cases (str_eq x.reason "confirmation_timeout")) [
  | inl e ↦ rw (by_reason, e) refl
  | inr e ↦ rw (by_reason, e) refl
]

pub reject-is_filled :
    (p : Placing) (r : Refusal) (detail : String) (rows : List Logged)
    → is_filled (reject p r detail rows).0 ≡ false
unfolding reject rejection_from_row is_filled
reject-is_filled p r detail rows = elim (Option-cases (by_key rows (reject_key p r))) [
  | inl e ↦ rw (reject, e) refl
  | inr (body, e) ↦ rw (reject, e) (by_reason-is_filled _)
]

pub raise_refusal-is_filled :
    (p : Placing) (r : Refusal) (detail : String) (rows : List Logged)
    → is_filled (raise_refusal p r detail rows).0 ≡ false
unfolding raise_refusal is_filled
raise_refusal-is_filled p r detail rows =
    elim (Bool-cases (str_eq r.reason "confirmation_timeout")) [
      | inl e ↦ rw (raise_refusal, e) refl
      | inr e ↦ rw (raise_refusal, e) (reject-is_filled p r detail rows)
    ]

-- What is not filled is no fill.
pub unfilled {ℓ} :
    {A : Type ℓ} (out : Attempt × List Logged) (f : Fill) (rows : List Logged)
    → is_filled out.0 ≡ false
    → out ≡ (filled f, rows)
    → A
unfolding is_filled
unfilled out f rows h e = let stuck = subst (λ o. is_filled o.0 ≡ false) e h in cc

-- An order that settles by a fill: its settlement, its rows, and the fill's place on the ledger.
pub settle_order-filled :
    (p : Placing) (describe : Refusal → String) (stage : Staged Settlement)
    (rows rows' : List Logged) (f : Fill)
    → settle_order p describe stage rows ≡ (filled f, rows')
    → (t : Settlement) × (stage ≡ done t)
      × (append_rows rows (keyed p.order_id t.bodies) ≡ some rows')
      × (t.fill (suc (length rows)) ≡ f)
unfolding settle_order
settle_order-filled p describe raised rows rows' f h = cc
settle_order-filled p describe (refused r) rows rows' f h =
    unfilled _ f rows' (raise_refusal-is_filled p r (describe r) rows) h
settle_order-filled p describe (done t) rows rows' f h =
    elim (Option-cases (append_rows rows (keyed p.order_id t.bodies))) [
      | inl e ↦ let stuck = rw (settle_order, e) at h in cc
      | inr (grown, e) ↦
          let same = rw (settle_order, e) at h in (t, refl, e ∙ ap (λ o. some o.1) same, cc same)
    ]

ended-injective :
    (out out' : Attempt × List Logged) → ended out.0 out.1 ≡ ended out'.0 out'.1 → out ≡ out'
ended-injective (a, rows) (b, rows') e = cc

ended_over :
    {b : Attempt} {rows' : List Logged} (a : Attempt) (rows : List Logged)
    → over a rows ≡ over b rows'
    → ended a rows ≡ ended b rows'
ended_over a rows e = cc

module _ (c : Codec) where
  write_order_batch-over :
      (p : Placing) (batch : List Logged) (consumes id : Option String) (rows rows' : List Logged)
      (f : Fill)
      → write_order_batch c p batch consumes id rows ≡ ended (filled f) rows'
      → ⊥
  unfolding write_order_batch
  write_order_batch-over p batch consumes id rows rows' f h =
      elim (Option-cases (append_rows rows batch)) [
        | inr (grown, e) ↦ let stuck = rw (write_order_batch, e) at h in cc
        | inl e ↦ elim (Bool-cases (lost_approval c (place_key_of c p.request) consumes rows)) [
          | inl lost ↦
              let same = rw (write_order_batch, e, lost) at h in
              unfilled _ f rows'
                (reject-is_filled p (at_accepted "approval_missing") (lost_detail c id) rows)
                (ended-injective _ _ same)
          | inr kept ↦ let stuck = rw (write_order_batch, e, kept) at h in cc
        ]
      ]

  append_order_batch-over :
      (p : Placing) (q : Quote) (d : Decision) (rows rows' : List Logged) (f : Fill)
      → append_order_batch c p q d rows ≡ ended (filled f) rows'
      → ⊥
  unfolding append_order_batch
  append_order_batch-over p q d rows rows' f h = elim (Bool-cases d.passed) [
    | inl e ↦ decided _ _ _ (rw (append_order_batch, e) at h)
    | inr e ↦
        let same = rw (append_order_batch, e) at h in
        unfilled _ f rows'
          (reject-is_filled p (at_accepted d.reason) "ACCEPTED re-check refused; no order written"
            rows)
          (ended-injective _ _ same)
  ]
    where
      decided :
          (x y z : Option String) → write_decided c p d x y z rows ≡ ended (filled f) rows' → ⊥
      decided (some x) (some y) (some z) h =
          unfold write_decided in write_order_batch-over p _ _ _ rows rows' f h
      decided none y z h = unfold write_decided in cc
      decided (some x) none z h = unfold write_decided in cc
      decided (some x) (some y) none h = unfold write_decided in cc

  -- A write that ends in a fill was a repeat, and wrote nothing.
  pub submit_order-filled :
      (p : Placing) (q : Quote) (d : Decision) (rows rows' : List Logged) (f : Fill)
      → submit_order c p q d rows ≡ over (filled f) rows'
      → (rows ≡ rows') × (repeat_outcome rows (place_key_of c p.request) ≡ some (filled f))
  unfolding submit_order
  submit_order-filled p q d rows rows' f h = by_batch (append_order_batch c p q d rows) refl h
    where
      by_repeat :
          (o : Option Attempt)
          → (elim o [ some a ↦ over a rows | none ↦ over (rejected in_flight) rows ])
            ≡ over (filled f) rows'
          → (rows ≡ rows') × (o ≡ some (filled f))
      by_repeat (some a) e = (cc, cc)
      by_repeat none e = cc

      by_batch :
          (w : Written)
          → append_order_batch c p q d rows ≡ w
          → (elim w [
            | written rows' ↦ sent rows'
            | ended a rows' ↦ over a rows'
            | conflict ↦ elim (repeat_outcome rows (place_key_of c p.request)) [
              | some a ↦ over a rows
              | none ↦ over (rejected in_flight) rows
            ]
          ])
            ≡ over (filled f) rows'
          → (rows ≡ rows') × (repeat_outcome rows (place_key_of c p.request) ≡ some (filled f))
      by_batch (written grown) e h = cc
      by_batch (ended a grown) e h =
          absurd (append_order_batch-over p q d rows rows' f (e ∙ ended_over a grown h))
      by_batch conflict e h = by_repeat (repeat_outcome rows (place_key_of c p.request)) h
