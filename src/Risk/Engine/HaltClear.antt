-- ===== src/Risk/Engine/HaltClear.antt =====
-- `request_halt_clear` of src/pumpgrok/risk/engine/core.py.
use pump_grok.Prelude.{
  ℕ, Bool, true, false, not, String, none, some, List, [], ◌∷◌, ◌≡◌, refl, sym, ap, ◌∙◌, inl, inr,
  Bool-cases, Option-cases, if◌then◌else◌, str_eq,
}
use pump_grok.Prelude.Int.{pos}
use pump_grok.Ledger.Events.{
  EventSource, Event, Body, ApprovalRecorded, halt_cleared, approval_recorded, unknown,
}
use pump_grok.Ledger.Mark.{Prices, or_default, ok}
use pump_grok.Ledger.State.{LedgerState}
use pump_grok.Ledger.Reducer.Frame.{ok-injective}
use pump_grok.Ledger.Reducer.{reduce, fold, handle, stamp, on_approval, on_halt_cleared}
use pump_grok.Core.Approval.{Kind, halt_clear, ApprovalRecord}
use pump_grok.Risk.KillSwitch.Model.{TextOps, Logged}
use pump_grok.Risk.KillSwitch.Clear.{Hashing, by_human, key_taken, ◌⧺◌, text_or_empty}
use pump_grok.Risk.Engine.Vocabulary.{halted}
use pump_grok.Risk.Engine.Model.{Engine, Ask, Walk, pass}
use pump_grok.Risk.Engine.Walk.{run_step}
use pump_grok.Execution.Adapter.Rows.{AreRows, fold-head, fold-end}
use pump_grok.Execution.Orders.Journal.{append_rows}

pub data HaltRefused : Type 0 where
  not_human wrong_kind no_active_halt approval_consumed clash : HaltRefused

-- The ledger that a clear leaves, or why it raises. `clash` is an `IntegrityError`.
pub data HaltClearing : Type 0 where
  halt_cleared_in : List Logged → HaltClearing
  halt_kept : HaltRefused → HaltClearing

abbrev is_halt_kind : Kind → Bool
is_halt_kind halt_clear = true
is_halt_kind kind = false

unfoldable pub halt_body : EventSource → ApprovalRecord → String → Body
halt_body source a reason = halt_cleared (record {
  source = source;
  reason = reason;
  cleared_by = a.approved_by;
  approval_id = a.id;
  note = reason;
})

unfoldable pub halt_approval_row : EventSource → ApprovalRecord → String → ApprovalRecorded
halt_approval_row source a reason = record {
  source = source;
  id = a.id;
  kind = "halt_clear";
  approved_by = a.approved_by;
  at = a.at;
  ticket_id = text_or_empty a.ticket_id;
  mint = text_or_empty a.mint;
  size_lamports = or_default a.size_lamports (pos 0);
  token_units = or_default a.token_units (pos 0);
  max_slippage_bps = or_default a.max_slippage_bps (pos 0);
  exit_rule_id = text_or_empty a.exit_rule_id;
  raw_message = reason;
  consumed = true;
}

unfoldable pub halt_approval_body : EventSource → ApprovalRecord → String → Body
unfolding halt_approval_row
halt_approval_body source a reason = approval_recorded (halt_approval_row source a reason)

unfoldable pub halt_clear_rows : EventSource → ApprovalRecord → String → List Logged
unfolding halt_body halt_approval_body
halt_clear_rows source a reason =
    ("halt-clear|" ⧺ a.id, halt_body source a reason)
    ∷ ("consumed|" ⧺ a.id, halt_approval_body source a reason)
    ∷ []

-- `is_seat` is SEAT_RE's match, and `s` the fold of the ledger.
module _ (o : TextOps) (h : Hashing) (is_seat : String → Bool) where
  unfoldable pub request_halt_clear :
      ApprovalRecord → String → EventSource → LedgerState → List Logged → HaltClearing
  unfolding by_human key_taken append_rows halt_clear_rows
  request_halt_clear a reason source s rows =
      if not (by_human o h is_seat a.approved_by)
      then halt_kept not_human
      else if not (is_halt_kind a.kind)
      then halt_kept wrong_kind
      else if not s.halt.active
      then halt_kept no_active_halt
      else if key_taken ("consumed|" ⧺ a.id) rows
      then halt_kept approval_consumed
      else elim (append_rows rows (halt_clear_rows source a reason)) [
        | none ↦ halt_kept clash
        | some rows' ↦ halt_cleared_in rows'
      ]

-- Why a clear was not refused, and what it appended.
pub record IsCleared (o : TextOps) (h : Hashing) (is_seat : String → Bool) (a : ApprovalRecord)
    (reason : String) (source : EventSource) (s : LedgerState) (rows rows' : List Logged)
    : Type 0 where
  pub human : by_human o h is_seat a.approved_by ≡ true
  pub kind : is_halt_kind a.kind ≡ true
  pub halted : s.halt.active ≡ true
  pub appended : append_rows rows (halt_clear_rows source a reason) ≡ some rows'

cleared-injective : (a b : List Logged) → halt_cleared_in a ≡ halt_cleared_in b → a ≡ b
cleared-injective a b e = cc

module _ (o : TextOps) (h : Hashing) (is_seat : String → Bool) where
  request_halt_clear-IsCleared :
      (a : ApprovalRecord) (reason : String) (source : EventSource) (s : LedgerState)
      (rows rows' : List Logged)
      → request_halt_clear o h is_seat a reason source s rows ≡ halt_cleared_in rows'
      → IsCleared o h is_seat a reason source s rows rows'
  unfolding request_halt_clear
  request_halt_clear-IsCleared a reason source s rows rows' r =
      elim (Bool-cases (by_human o h is_seat a.approved_by)) [
        | inr e1 ↦ let stuck = rw e1 at r in cc
        | inl e1 ↦ elim (Bool-cases (is_halt_kind a.kind)) [
          | inr e2 ↦ let stuck = rw (e1, e2) at r in cc
          | inl e2 ↦ elim (Bool-cases s.halt.active) [
            | inr e3 ↦ let stuck = rw (e1, e2, e3) at r in cc
            | inl e3 ↦ elim (Bool-cases (key_taken ("consumed|" ⧺ a.id) rows)) [
              | inl e4 ↦ let stuck = rw (e1, e2, e3, e4) at r in cc
              | inr e4 ↦ elim (Option-cases (append_rows rows (halt_clear_rows source a reason))) [
                | inl e5 ↦ let stuck = rw (e1, e2, e3, e4, e5) at r in cc
                | inr (grown, e5) ↦ record {
                  human = e1;
                  kind = e2;
                  halted = e3;
                  appended =
                      e5 ∙ ap some (cleared-injective grown rows' (rw (e1, e2, e3, e4, e5) at r));
                }
              ]
            ]
          ]
        ]
      ]

-- The halt of the fold after a row.
module _ (parse_prices : String → Prices) where
  stamp-halt : (n : ℕ) (b : Body) (s : LedgerState) → (stamp parse_prices n b s).halt ≡ s.halt
  unfolding stamp
  stamp-halt n (unknown type) s = refl
  stamp-halt n b s = refl

  reduce-halt :
      (s t u : LedgerState) (e : Event)
      → reduce parse_prices s e ≡ ok t
      → handle parse_prices s e.body e.ts_utc e.correlation_id ≡ ok u
      → t.halt ≡ u.halt
  unfolding reduce
  reduce-halt s t u e r handled =
      ap (λ x. x.halt) (sym (ok-injective _ t (rw handled at r))) ∙ stamp-halt e.seq e.body u

  on_approval-halt : (s : LedgerState) (row : ApprovalRecorded) → (on_approval s row).halt ≡ s.halt
  unfolding on_approval
  on_approval-halt s row = elim (Bool-cases (str_eq row.id "")) [
    | inl e ↦ rw (on_approval, e) refl
    | inr e ↦ rw (on_approval, e) refl
  ]

  fold-halt :
      (a : ApprovalRecord) (reason : String) (source : EventSource) (s t : LedgerState)
      (es : List Event)
      → AreRows es (halt_body source a reason ∷ halt_approval_body source a reason ∷ [])
      → fold parse_prices s es ≡ ok t
      → t.halt.active ≡ false
  unfolding handle halt_body halt_approval_body on_halt_cleared
  fold-halt a reason source s t es are f =
      let (e1, rest, u, is1, r1, more, f1) =
        fold-head parse_prices s t es (halt_body source a reason) _ are f in
      let (e2, rest2, w, is2, r2, more2, f2) =
        fold-head parse_prices u t rest (halt_approval_body source a reason) [] more f1 in
      let done = fold-end parse_prices w t rest2 more2 f2 in
      let second =
        reduce-halt u w (on_approval u (halt_approval_row source a reason)) e2 r2 (rw is2 refl) in
      let first = reduce-halt s u (on_halt_cleared s) e1 r1 (rw is1 refl) in
      ap (λ x. x.active)
        (ap (λ x. x.halt) (sym done)
          ∙ second
          ∙ on_approval-halt u (halt_approval_row source a reason)
          ∙ first)

  -- A clear of the halt that is not refused comes from a human with a clear approval while a halt
  -- is latched. It appends the clear and the consumed approval, neither of whose keys was taken;
  -- folding those rows leaves no halt, and an engine that reads that state passes its step on the
  -- halt.
  pub request_halt_clear-resumes :
      (o : TextOps) (h : Hashing) (is_seat : String → Bool) (a : ApprovalRecord) (reason : String)
      (source : EventSource) (s t : LedgerState) (rows rows' : List Logged) (es : List Event)
      (engine : Engine) (ask : Ask) (w : Walk)
      → request_halt_clear o h is_seat a reason source s rows ≡ halt_cleared_in rows'
      → AreRows es (halt_body source a reason ∷ halt_approval_body source a reason ∷ [])
      → fold parse_prices s es ≡ ok t
      → w.state ≡ t
      → IsCleared o h is_seat a reason source s rows rows'
        × (t.halt.active ≡ false)
        × (run_step engine ask halted w ≡ pass w)
  unfolding run_step
  request_halt_clear-resumes o h is_seat a reason source s t rows rows' es engine ask w r are f at =
      let clear = fold-halt a reason source s t es are f in
      (
        request_halt_clear-IsCleared o h is_seat a reason source s rows rows' r,
        clear,
        rw (ap (λ x. x.halt.active) at ∙ clear) refl,
      )
