-- ===== src/Ledger/Events.antt =====
-- src/pumpgrok/ledger/events.py: one record for each payload model. `MoneyInt` is ℤ,
-- `PriceDecimal` is Decimal, `... | None` is Option. A stored payload has been validated against
-- its model and dumped with the defaults filled in, so no field is missing.
use pump_grok.Prelude.{ℕ, String, Bool, Option, List}
use pump_grok.Prelude.Int.{ℤ}
use pump_grok.Prelude.Decimal.{Decimal}

pub data EventSource : Type 0 where
  paper replay manual : EventSource

pub data NoteKind : Type 0 where
  lead whale social signal verdict safety_report review ticket note : NoteKind

pub record OrderPlaced : Type 0 where
  pub source : EventSource
  pub order_id : String
  pub decision_id : String
  pub ticket_id : String
  pub side : String
  pub mint : String
  pub slippage_bps : ℤ
  pub size_lamports : Option ℤ
  pub token_units : Option ℤ
  pub quote_json : String
  pub approval_json : String
  pub risk_json : String

pub record OrderRejected : Type 0 where
  pub source : EventSource
  pub order_id : String
  pub decision_id : String
  pub reason : String
  pub detail : String
  pub stage : String
  pub fees_lamports : ℤ
  pub quote_out : ℤ
  pub other_amount_threshold : ℤ
  pub confirm_out : ℤ

pub record FillRecorded : Type 0 where
  pub source : EventSource
  pub order_id : String
  pub decision_id : String
  pub side : String
  pub mint : String
  pub filled_lamports : ℤ
  pub filled_units : ℤ
  pub filled_fraction : Decimal
  pub price_avg : Decimal
  pub venue_fee_lamports : ℤ
  pub network_cost_lamports : ℤ
  pub cash_delta_lamports : ℤ
  pub latency_s : Decimal
  pub venue_tx_ref : String
  pub curve_before_s : ℤ
  pub curve_before_t : ℤ
  pub curve_after_s : ℤ
  pub curve_after_t : ℤ
  pub route : String
  pub realised_slippage_bps : ℤ

pub record PositionOpened : Type 0 where
  pub source : EventSource
  pub mint : String
  pub price_entry : Decimal
  pub token_units : ℤ
  pub cost_basis_lamports : ℤ
  pub opened_ts_utc : String
  pub symbol : String
  pub creator : String
  pub ticket_id : String
  pub score : Decimal

pub record PositionClosed : Type 0 where
  pub source : EventSource
  pub mint : String
  pub price_exit : Decimal
  pub proceeds_lamports : ℤ
  pub realized_pnl_lamports : ℤ
  pub reason : String
  pub pnl_pct : Decimal
  pub hold_seconds : ℤ
  pub venue_tx_ref : String

pub record MarkToMarket : Type 0 where
  pub source : EventSource
  pub ts_source : String
  pub cash_lamports : ℤ
  pub equity_lamports : ℤ
  pub unrealized_lamports : ℤ
  pub prices_json : String

pub record HaltSet : Type 0 where
  pub source : EventSource
  pub reason : String
  pub detail : String
  pub equity_lamports : ℤ
  pub day_start_equity_lamports : ℤ
  pub set_by : String

pub record HaltCleared : Type 0 where
  pub source : EventSource
  pub reason : String
  pub cleared_by : String
  pub approval_id : String
  pub note : String

pub record KillSwitchSet : Type 0 where
  pub source : EventSource
  pub origin : String
  pub reason : String
  pub flatten_requested : Bool
  pub set_by : String

pub record KillSwitchCleared : Type 0 where
  pub source : EventSource
  pub cleared_by : String
  pub approval_id : String
  pub sources_now_clear : List String

pub record BreakerTripped : Type 0 where
  pub source : EventSource
  pub breaker : String
  pub metric : String
  pub threshold : String
  pub cooldown_s : ℤ

pub record BreakerReset : Type 0 where
  pub source : EventSource
  pub breaker : String
  pub after_s : ℤ
  pub probe_ok : Bool

pub record DailyRollover : Type 0 where
  pub source : EventSource
  pub day_utc : String
  pub day_start_equity_lamports : ℤ
  pub prior_day_json : String
  pub open_positions : List String

pub record ConfigChanged : Type 0 where
  pub source : EventSource
  pub by : String
  pub keys_changed : List String
  pub old_hash : String
  pub new_hash : String

pub record LiveWriteAttempted : Type 0 where
  pub source : EventSource
  pub adapter : String
  pub method : String
  pub caller_seat : String
  pub gate_result_json : String
  pub stack_hash : String

pub record Escalation : Type 0 where
  pub source : EventSource
  pub kind : String
  pub seat : String
  pub detail : String

pub record JournalNote : Type 0 where
  pub source : EventSource
  pub seat : String
  pub note_kind : NoteKind
  pub text : String
  pub refs : List String

pub record ApprovalRecorded : Type 0 where
  pub source : EventSource
  pub id : String
  pub kind : String
  pub approved_by : String
  pub at : String
  pub ticket_id : String
  pub mint : String
  pub size_lamports : ℤ
  pub token_units : ℤ
  pub max_slippage_bps : ℤ
  pub exit_rule_id : String
  pub raw_message : String
  pub consumed : Bool

-- A stored row's type with its payload. `unknown` is a type outside the vocabulary, written by
-- a newer process.
pub data Body : Type 0 where
  order_placed : OrderPlaced → Body
  order_rejected : OrderRejected → Body
  fill_recorded : FillRecorded → Body
  position_opened : PositionOpened → Body
  position_closed : PositionClosed → Body
  mark_to_market : MarkToMarket → Body
  halt_set : HaltSet → Body
  halt_cleared : HaltCleared → Body
  kill_switch_set : KillSwitchSet → Body
  kill_switch_cleared : KillSwitchCleared → Body
  breaker_tripped : BreakerTripped → Body
  breaker_reset : BreakerReset → Body
  daily_rollover : DailyRollover → Body
  config_changed : ConfigChanged → Body
  live_write_attempted : LiveWriteAttempted → Body
  escalation : Escalation → Body
  journal_note : JournalNote → Body
  approval_recorded : ApprovalRecorded → Body
  unknown : String → Body

-- The fields of a stored row that its readers use.
pub record Event : Type 0 where
  pub seq : ℕ
  pub ts_utc : String
  pub correlation_id : String
  pub body : Body
