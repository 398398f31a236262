-- ===== src/Risk/Engine/Journal.antt =====
-- What src/pumpgrok/risk/engine/core.py reads of the ledger: the recorded approvals, the mints under a
-- kill verdict, and a mint's creator.
use pump_grok.Prelude.{
  Bool, true, false, String, Option, none, some, List, [], ◌∷◌, str_eq, if◌then◌else◌,
}
use pump_grok.Prelude.Int.{ℤ, pos}
use pump_grok.Prelude.Lists.{contains}
use pump_grok.Prelude.Dict.{Dict, lookup, insert}
use pump_grok.Ledger.Events.{
  Body, ApprovalRecorded, NoteKind, verdict, approval_recorded, journal_note, position_opened,
}
use pump_grok.Ledger.State.{LedgerState, PositionView}
use pump_grok.Core.Order.{eqb_ℤ}
use pump_grok.Core.Approval.{
  Kind, human_buy, human_sell, exit_rule, autonomous_paper, killswitch_clear, halt_clear, live_gate,
  ApprovalRecord,
}
use pump_grok.Risk.KillSwitch.Model.{Logged}

-- The first loop of `_approvals`: the last row of each approval that has an id.
unfoldable pub note_approval : Dict ApprovalRecorded → Body → Dict ApprovalRecorded
unfolding insert
note_approval latest (approval_recorded row) =
    if str_eq row.id "" then latest else insert row.id row latest
note_approval latest body = latest

unfoldable pub latest_approvals : Dict ApprovalRecorded → List Logged → Dict ApprovalRecorded
unfolding note_approval
latest_approvals latest [] = latest
latest_approvals latest ((k, body) ∷ rows) = latest_approvals (note_approval latest body) rows

-- `x or None`
abbrev text_or_none : String → Option String
text_or_none s = if str_eq s "" then none else some s

abbrev int_or_none : ℤ → Option ℤ
int_or_none n = if eqb_ℤ n (pos 0) then none else some n

-- The kinds of an `ApprovalRecord`; any other text does not validate.
unfoldable pub parse_kind : String → Option Kind
parse_kind s =
    if str_eq s "human_buy"
    then some human_buy
    else if str_eq s "human_sell"
    then some human_sell
    else if str_eq s "exit_rule"
    then some exit_rule
    else if str_eq s "autonomous_paper"
    then some autonomous_paper
    else if str_eq s "killswitch_clear"
    then some killswitch_clear
    else if str_eq s "halt_clear"
    then some halt_clear
    else if str_eq s "live_gate"
    then some live_gate
    else none

-- `is_valid` is whether the record's time parses and its model accepts its fields.
module _ (is_valid : ApprovalRecord → Bool) where
  unfoldable pub approval_of_kind : ApprovalRecorded → Option Kind → Option ApprovalRecord
  approval_of_kind row none = none
  approval_of_kind row (some kind) =
      let record_of : ApprovalRecord = record {
        id = row.id;
        kind = kind;
        ticket_id = text_or_none row.ticket_id;
        mint = text_or_none row.mint;
        size_lamports = int_or_none row.size_lamports;
        token_units = int_or_none row.token_units;
        max_slippage_bps = int_or_none row.max_slippage_bps;
        exit_rule_id = text_or_none row.exit_rule_id;
        approved_by = row.approved_by;
        raw_message = row.raw_message;
        at = row.at;
        consumed = false;
      } in
      if is_valid record_of then some record_of else none

  -- The record of an unconsumed row that validates.
  unfoldable pub usable_approval : ApprovalRecorded → Option ApprovalRecord
  unfolding approval_of_kind parse_kind
  usable_approval row = if row.consumed then none else approval_of_kind row (parse_kind row.kind)

  -- The second loop of `_approvals`.
  unfoldable pub usable_approvals : Dict ApprovalRecorded → Dict ApprovalRecord
  unfolding usable_approval
  usable_approvals [] = []
  usable_approvals ((id, row) ∷ latest) =
      let rest = usable_approvals latest in
      elim (usable_approval row) [ none ↦ rest | some a ↦ (id, a) ∷ rest ]

  unfoldable pub approvals_of : List Logged → Dict ApprovalRecord
  unfolding latest_approvals usable_approvals
  approvals_of rows = usable_approvals (latest_approvals [] rows)

-- `killed_mint` is the mint of KILL_VERDICT_RE's match.
module _ (killed_mint : String → Option String) where
  abbrev is_verdict : NoteKind → Bool
  is_verdict verdict = true
  is_verdict kind = false

  unfoldable pub killed_mints : List Logged → List String
  unfolding contains
  killed_mints [] = []
  killed_mints ((k, journal_note row) ∷ rows) =
      let rest = killed_mints rows in
      if is_verdict row.note_kind
      then (elim (killed_mint row.text) [ none ↦ rest | some mint ↦ mint ∷ rest ])
      else rest
  killed_mints ((k, body) ∷ rows) = killed_mints rows

-- The creator of the first `PositionOpened` row of a mint.
unfoldable pub opened_by : String → List Logged → String
opened_by mint [] = ""
opened_by mint ((k, position_opened row) ∷ rows) =
    if str_eq row.mint mint then row.creator else opened_by mint rows
opened_by mint ((k, body) ∷ rows) = opened_by mint rows

-- `_creator_of`, by the mint's position.
unfoldable pub creator_at : String → List Logged → Option PositionView → String
unfolding opened_by
creator_at mint rows none = opened_by mint rows
creator_at mint rows (some p) = if str_eq p.creator "" then opened_by mint rows else p.creator

unfoldable pub creator_of : List Logged → String → LedgerState → String
unfolding lookup creator_at
creator_of rows mint s = creator_at mint rows (lookup mint s.positions)
