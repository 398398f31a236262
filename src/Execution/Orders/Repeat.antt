-- ===== src/Execution/Orders/Repeat.antt =====
-- A repeated decision: `place` of src/pumpgrok/execution/paper_adapter/buy.py on the ledger that an
-- earlier call left.
use pump_grok.Prelude.{
  true, String, some, List, ◌++◌, ◌≡◌, refl, sym, ap, subst, ◌∙◌, inl, inr, Bool-cases,
  Option-cases, str_eq,
}
use pump_grok.Prelude.Int.{pos, ◌≤ℤ◌}
use pump_grok.Ledger.Mark.{or_default}
use pump_grok.Ledger.State.{LedgerState}
use pump_grok.Core.Order.{buy}
use pump_grok.Core.Idempotency.{Codec, exec_place_key, order_hash_for}
use pump_grok.Risk.KillSwitch.Model.{Logged}
use pump_grok.Execution.Adapter.Model.{
  Venue, Refusal, Staged, done, refused, raised, ◌>>=◌, >>=-eq-done, at_accepted,
}
use pump_grok.Execution.Orders.Journal.{Fill, Attempt, filled, repeat_outcome}
use pump_grok.Execution.Orders.Batch.{Quote, Submitted, sent, over, place_key_of, submit_order}
use pump_grok.Risk.Engine.Decide.{Decision}
use pump_grok.Execution.Orders.Sizing.{Settlement, Accepted, Run, order_curve, size_order}
use pump_grok.Execution.Orders.Place.{
  Answers, Meanwhile, after_write, after_curve, place_new, place_order,
}
use pump_grok.Execution.Orders.Keys.{is_open_order, repeat_outcome-filled}
use pump_grok.Execution.Orders.Sent.{submit_order-IsSent}
use pump_grok.Execution.Orders.Settled.{IsRatio, IsRecorded, size_order-IsRecorded}
use pump_grok.Execution.Orders.Fills.{
  unfilled, reject-is_filled, raise_refusal-is_filled, settle_order-filled, submit_order-filled,
}
use pump_grok.Execution.Orders.OnLedger.{settled-repeats}

-- The rows before a settlement by others and by the engine, in the order of the ledger.
abbrev pub at_write : Meanwhile → List Logged → List Logged
at_write m rows = ((rows ++ m.checking) ++ m.reading) ++ m.rechecking

over_eq :
    {f : Fill} {rows' : List Logged} (a : Attempt) (rows : List Logged)
    → ◌≡◌ {A = Attempt × List Logged} (a, rows) (filled f, rows')
    → over a rows ≡ over (filled f) rows'
over_eq a rows e = cc

module _ (c : Codec) (v : Venue) (fold : List Logged → LedgerState)
    (describe : Refusal → String) where
  after_write-filled :
      (r : Run) (a : Accepted) (q : Quote) (d : Decision) (o : Submitted)
      (rows others rows' : List Logged) (f : Fill)
      → is_open_order r.p.order_id rows ≡ true
      → is_open_order r.p.order_id others ≡ true
      → ((later : LedgerState) (t : Settlement)
          → a.finish later ≡ done t
          → IsRecorded r.p.order_id t)
      → submit_order c r.p q d rows ≡ o
      → after_write c v fold describe r a others o ≡ (filled f, rows')
      → repeat_outcome rows' (place_key_of c r.p.request) ≡ some (filled f)
  unfolding after_write
  after_write-filled r a q d (over attempt left) rows others rows' f still others_still read e h =
      let (same, repeats) =
        submit_order-filled c r.p q d rows rows' f (e ∙ over_eq attempt left h) in
      subst (λ x. repeat_outcome x (place_key_of c r.p.request) ≡ some (filled f)) same repeats
  after_write-filled r a q d (sent left) rows others rows' f still others_still read e h =
      let (t, finished, appended, same) =
        settle_order-filled r.p describe (a.finish (fold (left ++ others))) (left ++ others) rows' f
          h in
      settled-repeats c r.p d rows left others rows' t (submit_order-IsSent c r.p q d rows left e)
        (read (fold (left ++ others)) t finished) still others_still appended
      ∙ ap (λ x. some (filled x)) same

  after_curve-filled :
      (r : Run) (ans : Answers) (m : Meanwhile) (quote_id : String) (stage : Staged Accepted)
      (rows rows' : List Logged) (f : Fill)
      → is_open_order r.p.order_id (rows ++ m.rechecking) ≡ true
      → is_open_order r.p.order_id m.confirming ≡ true
      → ((a : Accepted) (later : LedgerState) (t : Settlement)
          → stage ≡ done a
          → a.finish later ≡ done t
          → IsRecorded r.p.order_id t)
      → after_curve c v fold describe r ans m quote_id stage rows ≡ (filled f, rows')
      → repeat_outcome rows' (place_key_of c r.p.request) ≡ some (filled f)
  unfolding after_curve
  after_curve-filled r ans m quote_id raised rows rows' f still others_still read h = cc
  after_curve-filled r ans m quote_id (refused x) rows rows' f still others_still read h =
      unfilled _ f rows' (raise_refusal-is_filled r.p x (describe x) rows) h
  after_curve-filled r ans m quote_id (done a) rows rows' f still others_still read h =
      after_write-filled r a _ ans.recheck _ (rows ++ m.rechecking) m.confirming rows' f still
        others_still (λ later t. read a later t refl) refl h

  place_new-filled :
      (r : Run) (ans : Answers) (m : Meanwhile) (quote_id : String) (rows rows' : List Logged)
      (f : Fill)
      → IsRatio v
      → (r.p.request.side ≡ buy → pos 1 ≤ℤ or_default ans.decision.size_lamports (pos 0))
      → is_open_order r.p.order_id (at_write m rows) ≡ true
      → is_open_order r.p.order_id m.confirming ≡ true
      → place_new c v fold describe r ans m quote_id rows ≡ (filled f, rows')
      → repeat_outcome rows' (place_key_of c r.p.request) ≡ some (filled f)
  unfolding place_new
  place_new-filled r ans m quote_id rows rows' f ratio positive still others_still h =
      let size = or_default ans.decision.size_lamports (pos 0) in
      let read = (rows ++ m.checking) ++ m.reading in
      elim (Bool-cases (str_eq ans.decision.order_hash (order_hash_for c r.p.request))) [
        | inr e ↦ let stuck = rw e at h in cc
        | inl e ↦ elim (Bool-cases ans.decision.passed) [
          | inr g ↦
              unfilled _ f rows'
                (reject-is_filled r.p (at_accepted ans.decision.reason) "risk refused"
                  (rows ++ m.checking))
                (rw (e, g) at h)
          | inl g ↦
              after_curve-filled r ans m quote_id
                (order_curve r.p.request ans.curve >>= λ curve0.
                  size_order v r r.p.request.side size curve0 (fold read))
                read rows' f still others_still
                (λ a later t sized finished.
                  let (curve0, gated, sizing) =
                    >>=-eq-done (order_curve r.p.request ans.curve) _ sized in
                  size_order-IsRecorded v ratio r r.p.request.side size curve0 (fold read) later a t
                    positive sizing finished)
                (rw (e, g) at h)
        ]
      ]

  place_order-filled :
      (r : Run) (ans : Answers) (m : Meanwhile) (quote_id : String) (rows rows' : List Logged)
      (f : Fill)
      → IsRatio v
      → (r.p.request.side ≡ buy → pos 1 ≤ℤ or_default ans.decision.size_lamports (pos 0))
      → is_open_order r.p.order_id (at_write m rows) ≡ true
      → is_open_order r.p.order_id m.confirming ≡ true
      → place_order c v fold describe r ans m quote_id rows ≡ (filled f, rows')
      → repeat_outcome rows' (place_key_of c r.p.request) ≡ some (filled f)
  unfolding place_order
  place_order-filled r ans m quote_id rows rows' f ratio positive still others_still h =
      elim (Option-cases (repeat_outcome rows (place_key_of c r.p.request))) [
        | inl e ↦
            place_new-filled r ans m quote_id rows rows' f ratio positive still others_still
              (rw (place_order, e) at h)
        | inr (a, e) ↦
            let same = rw (place_order, e) at h in
            subst (λ x. repeat_outcome x (place_key_of c r.p.request) ≡ some (filled f))
              (ap (λ o. o.1) same) (e ∙ ap (λ o. some o.0) same)
      ]

  -- Once a placement has returned a fill, every later placement of the same ticket, side and
  -- decision returns that fill and appends nothing: on any ledger that has grown from the one it
  -- left, whatever the second request's size, price limit and approval, and whatever the engine and
  -- the curve would answer. The conditions: a buy was of a positive size, the quotient of an amount
  -- and a positive bound of it is at least one exactly when they are equal, and the order's id is
  -- new: no other row settles it.
  pub place_order-repeat :
      (r again : Run) (ans ans' : Answers) (m m' : Meanwhile) (quote_id quote_id' : String)
      (rows rows' more : List Logged) (f : Fill)
      → IsRatio v
      → (r.p.request.side ≡ buy → pos 1 ≤ℤ or_default ans.decision.size_lamports (pos 0))
      → is_open_order r.p.order_id (at_write m rows) ≡ true
      → is_open_order r.p.order_id m.confirming ≡ true
      → place_order c v fold describe r ans m quote_id rows ≡ (filled f, rows')
      → again.p.request.ticket_id ≡ r.p.request.ticket_id
      → again.p.request.side ≡ r.p.request.side
      → again.p.request.decision_id ≡ r.p.request.decision_id
      → place_order c v fold describe again ans' m' quote_id' (rows' ++ more)
        ≡ (filled f, rows' ++ more)
  unfolding place_order exec_place_key
  place_order-repeat r again ans ans' m m' quote_id quote_id' rows rows' more f ratio positive still
        others_still h ticket side decision =
      let key : place_key_of c r.p.request ≡ place_key_of c again.p.request = cc in
      let repeats =
        repeat_outcome-filled rows' more (place_key_of c r.p.request) f
          (place_order-filled r ans m quote_id rows rows' f ratio positive still others_still h) in
      rw (place_order, ap (repeat_outcome (rows' ++ more)) (sym key) ∙ repeats) refl
