-- ===== src/Ledger/Fill.antt =====
-- The handlers of positions, fills and rejections in src/pumpgrok/ledger/reducer.py.
use pump_grok.Prelude.{String, Bool, false, Option, none, some, ◌&&◌, if◌then◌else◌, str_eq}
use pump_grok.Prelude.Int.{ℤ, pos, ◌+ℤ◌, ◌-ℤ◌, ◌*ℤ◌, ltb_ℤ, min_ℤ, max_ℤ, floor_div}
use pump_grok.Prelude.Dict.{lookup, insert, erase}
use pump_grok.Ledger.Events.{PositionOpened, PositionClosed, FillRecorded, OrderRejected}
use pump_grok.Ledger.State.{PositionView, LedgerState, CountersView, track_peak}
use pump_grok.Ledger.Mark.{or_default}

unfoldable pub on_position_opened : LedgerState → PositionOpened → String → LedgerState
on_position_opened s row correlation_id =
    if str_eq row.mint ""
    then s
    else track_peak (record s {
      positions =
          insert row.mint
            (record {
              mint = row.mint;
              symbol = row.symbol;
              creator = row.creator;
              ticket_id = row.ticket_id;
              correlation_id = correlation_id;
              price_entry = row.price_entry;
              price_peak = row.price_entry;
              token_units = row.token_units;
              cost_basis_lamports = row.cost_basis_lamports;
              fees_lamports = pos 0;
              opened_ts_utc = row.opened_ts_utc;
              last_mtm_lamports = pos 0;
              last_mtm_venue_fee_lamports = pos 0;
              last_mtm_ts_utc = "";
              mtm_source = "";
              mtm_frozen = false;
            })
            s.positions;
    })

unfoldable pub add_realized : CountersView → ℤ → CountersView
add_realized c x = record c { realized_today_lamports = c.realized_today_lamports +ℤ x }

unfoldable pub on_position_closed : LedgerState → PositionClosed → LedgerState
on_position_closed s row = track_peak (record s {
  positions = erase row.mint s.positions;
  counters = add_realized s.counters row.realized_pnl_lamports;
})

-- The fee of a fill: venue fee and network cost.
unfoldable pub fill_fee : FillRecorded → ℤ
fill_fee row = row.venue_fee_lamports +ℤ row.network_cost_lamports

-- A buy on an open position.
unfoldable pub bought : FillRecorded → PositionView → PositionView
bought row p = record p {
  token_units = p.token_units +ℤ row.filled_units;
  cost_basis_lamports = p.cost_basis_lamports -ℤ min_ℤ row.cash_delta_lamports (pos 0);
  fees_lamports = p.fees_lamports +ℤ fill_fee row;
}

-- The cost basis of the units that a sale takes out.
unfoldable pub reduction : FillRecorded → PositionView → ℤ
reduction row p = floor_div (p.cost_basis_lamports *ℤ row.filled_units) p.token_units

-- A position's share of `x` for the units that stay.
unfoldable pub remaining_share : ℤ → FillRecorded → PositionView → ℤ
remaining_share x row p = floor_div (x *ℤ (p.token_units -ℤ row.filled_units)) p.token_units

-- What a sale brought in before the network cost.
unfoldable pub received : FillRecorded → ℤ
received row = row.cash_delta_lamports +ℤ row.network_cost_lamports

unfoldable pub sold : FillRecorded → PositionView → PositionView
sold row p = record p {
  token_units = p.token_units -ℤ row.filled_units;
  cost_basis_lamports = p.cost_basis_lamports -ℤ reduction row p;
  last_mtm_lamports =
      min_ℤ (remaining_share p.last_mtm_lamports row p)
        (max_ℤ (p.last_mtm_lamports -ℤ received row) (pos 0));
  last_mtm_venue_fee_lamports = remaining_share p.last_mtm_venue_fee_lamports row p;
}

-- A sale changes a position only if it holds units and some are sold.
unfoldable pub is_sale : FillRecorded → PositionView → Bool
is_sale row p = ltb_ℤ (pos 0) p.token_units && ltb_ℤ (pos 0) row.filled_units

-- The position's part of a fill. Any side but "buy" is a sale.
unfoldable pub fill_position : FillRecorded → PositionView → PositionView
fill_position row p =
    if str_eq row.side "buy" then bought row p else if is_sale row p then sold row p else p

-- A partial exit books its own slice; the closing fill's slice is booked by PositionClosed.
unfoldable pub booked : FillRecorded → PositionView → ℤ
booked row p =
    if str_eq row.side "buy"
    then pos 0
    else if is_sale row p && ltb_ℤ (pos 0) (p.token_units -ℤ row.filled_units)
    then row.cash_delta_lamports -ℤ reduction row p
    else pos 0

unfoldable pub fill_counters : FillRecorded → CountersView → CountersView
fill_counters row c =
    let paid = record c { fees_today_lamports = c.fees_today_lamports +ℤ fill_fee row } in
    if str_eq row.side "buy" then record paid { trades_today = c.trades_today +ℤ pos 1 } else paid

-- The state after a fill, but for the peak, by the position that its mint has.
unfoldable pub filled : LedgerState → FillRecorded → Option PositionView → LedgerState
filled s row none = record s {
  cash_lamports = s.cash_lamports +ℤ row.cash_delta_lamports;
  counters = fill_counters row s.counters;
}
filled s row (some p) = record s {
  cash_lamports = s.cash_lamports +ℤ row.cash_delta_lamports;
  counters = add_realized (fill_counters row s.counters) (booked row p);
  positions = insert row.mint (fill_position row p) s.positions;
}

unfoldable pub on_fill : LedgerState → FillRecorded → LedgerState
unfolding filled
on_fill s row = track_peak (filled s row (lookup row.mint s.positions))

unfoldable pub on_rejected : LedgerState → OrderRejected → LedgerState
on_rejected s row =
    let rejected = s.counters.rejected_today in
    record s {
      cash_lamports = s.cash_lamports -ℤ row.fees_lamports;
      counters = record s.counters {
        rejected_today =
            insert row.reason (or_default (lookup row.reason rejected) (pos 0) +ℤ pos 1) rejected;
        fees_today_lamports = s.counters.fees_today_lamports +ℤ row.fees_lamports;
      };
    }
