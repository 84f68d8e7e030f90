-- ===== src/Settlement/Close.antt =====
-- The settlement of a fill of a closing order as a whole: `CloseTradeSettlementHandler.apply`,
-- app/services/close_trade_settlement_handler.py. The rows are those that its queries lock; a call
-- that raises is rolled back by the caller.
pub mod Records
pub mod Position
pub mod Ready
pub mod Lots
pub mod Laws
pub mod Tests
use sim_trade.Prelude.{
  ℕ, Bool, true, false, not, ◌&&◌, ◌||◌, Option, none, some, List, map, if◌then◌else◌,
}
use sim_trade.Prelude.Int.{ℤ, pos, ◌+ℤ◌, ◌-ℤ◌, ltb_ℤ, eqb_ℤ}
use sim_trade.Errors.{
  Result, ok, err, ◌>>=◌, ◌>>◌, raise_if, close_position_not_found, close_resource_inconsistent,
  trade_position_allocation_inconsistent, close_position_inconsistent, division_by_zero,
  value_error,
}
use sim_trade.Enums.{
  OrderDirection, sell, buy, OffsetFlag, PositionDirection, long, short, InstrumentType,
  futures_option, index_option,
}
use sim_trade.Money.{Decimal, Money, of_int, times, quantize_money}
use sim_trade.Positions.MarginRelease.{allocate_frozen_commission}
use sim_trade.Settlement.Rows.{LotRow, AllocationRow, OrderRow, PositionRow}
use sim_trade.Settlement.Tables.{total}
use sim_trade.Settlement.Consumption.{Fill, CloseConsumption, consumptions_of, write_consumptions}
use sim_trade.Settlement.Validation.{validate_before_mutation}
use sim_trade.Settlement.Funds.{AccountRow, FillTotals, settle_account, settle_order}
use sim_trade.Settlement.Close.Records.{
  CloseRequest, CloseRows, CloseTrade, TradePositionAllocation, Prepared, Closed,
}
use sim_trade.Settlement.Close.Position.{sum_decimal, settle_position}

-- `InstrumentType(order.instrument_type)`, and whether it is one of the two options
abbrev pub is_option_of : Option InstrumentType → Result Bool
is_option_of none = err value_error
is_option_of (some futures_option) = ok true
is_option_of (some index_option) = ok true
is_option_of (some _) = ok false

-- Only an option releases a share; `Decimal` does not divide by zero.
abbrev pub option_share : Bool → Money → ℤ → ℤ → Result Money
option_share false amount part whole = ok (pos 0)
option_share true amount part whole =
    raise_if (not (eqb_ℤ part whole) && eqb_ℤ whole (pos 0)) division_by_zero
    >> ok (allocate_frozen_commission amount part whole)

abbrev pub side_of : Option OrderDirection → PositionDirection
side_of (some sell) = long
side_of _ = short

abbrev pub required_position : Option PositionRow → Result PositionRow
required_position none = err close_position_not_found
required_position (some p) = ok p

abbrev pub turnover_of : Decimal → List CloseConsumption → Money
turnover_of price cs =
    quantize_money
      (sum_decimal (λ c. times (times price (of_int c.volume)) c.detail.multiplier_snapshot) cs)

abbrev pub premium_of : Bool → Option OrderDirection → Money → Money
premium_of false direction turnover = pos 0
premium_of true (some sell) turnover = turnover
premium_of true _ turnover = pos 0 -ℤ turnover

-- The sums over the consumptions.
pub totals_of : Bool → CloseRequest → OrderRow → List CloseConsumption → Money → Money → FillTotals
totals_of is_option r o cs frozen_cash market_value = record {
  released_margin = total (λ c. c.released_margin) cs;
  released_realtime_margin = total (λ c. c.released_realtime_margin) cs;
  released_frozen_commission = total (λ c. c.released_frozen_commission) cs;
  released_frozen_cash = frozen_cash;
  released_option_market_value = market_value;
  actual_commission = total (λ c. c.actual_commission) cs;
  realized_pnl = total (λ c. c.realized_pnl) cs;
  daily_close_pnl = total (λ c. c.daily_close_pnl) cs;
  premium_cash_flow = premium_of is_option o.direction (turnover_of r.fill_price cs);
}

abbrev option_value_of : PositionDirection → AccountRow → Money
option_value_of long a = a.valued.long_option_market_value
option_value_of short a = a.valued.short_option_market_value

-- The account or the position does not hold what the fill releases.
lacks_resources : Bool → PositionDirection → ℤ → FillTotals → AccountRow → PositionRow → Bool
lacks_resources is_option side n t a p =
    ltb_ℤ a.valued.used_margin t.released_margin
    || (ltb_ℤ a.valued.frozen_commission t.released_frozen_commission
        || (ltb_ℤ a.valued.frozen_cash t.released_frozen_cash
            || (ltb_ℤ p.used_margin t.released_margin
                || (is_option && ltb_ℤ p.realtime_required_margin t.released_realtime_margin
                    || (is_option
                          && ltb_ℤ a.valued.option_realtime_required_margin
                              t.released_realtime_margin
                        || (is_option
                              && ltb_ℤ (option_value_of side a) t.released_option_market_value
                            || ltb_ℤ p.frozen_volume n))))))

abbrev pub fill_of : Bool → CloseRequest → CloseRows → PositionRow → Fill
fill_of is_option r rows p = record {
  is_option = is_option;
  order_direction = rows.order.direction;
  position_direction = some (side_of rows.order.direction);
  fill_price = r.fill_price;
  position_multiplier = p.multiplier_snapshot;
  lots = rows.lots;
}

pub prepare_close : CloseRequest → CloseRows → Result Prepared
unfolding totals_of lacks_resources
prepare_close r rows = do
  is_option ← is_option_of rows.order.instrument_type
  frozen_cash ←
      option_share is_option rows.order.frozen_cash r.fill_volume rows.order.remaining_volume
  p ← required_position rows.position
  validate_before_mutation rows.order p rows.lots rows.allocations r.fill_volume
      (side_of rows.order.direction)
  cs ← consumptions_of (fill_of is_option r rows p) rows.allocations r.fill_volume
  market_value ← option_share is_option p.option_market_value r.fill_volume p.total_volume
  raise_if
      (lacks_resources is_option (side_of rows.order.direction) r.fill_volume
        (totals_of is_option r rows.order cs frozen_cash market_value) rows.account p)
      close_resource_inconsistent
  ok record {
    is_option = is_option;
    side = side_of rows.order.direction;
    position = p;
    consumptions = cs;
    totals = totals_of is_option r rows.order cs frozen_cash market_value;
  }

abbrev pub part_of : CloseRequest → OrderRow → CloseConsumption → TradePositionAllocation
part_of r o c = record {
  allocation_id = c.allocation.allocation_id;
  position_detail_id = c.detail.position_detail_id;
  resolved_offset_flag = c.allocation.key.resolved_offset_flag;
  open_trading_day = c.detail.open_trading_day;
  close_trading_day = o.trading_day;
  open_price = c.detail.open_price;
  close_price = r.fill_price;
  close_volume = c.volume;
  released_margin = c.released_margin;
  commission = c.actual_commission;
  realized_pnl = c.realized_pnl;
  daily_close_pnl = c.daily_close_pnl;
}

pub trade_of : CloseRequest → Prepared → CloseTrade
trade_of r q = record {
  trade_price = r.fill_price;
  trade_volume = r.fill_volume;
  turnover = turnover_of r.fill_price q.consumptions;
  margin = q.totals.released_margin;
  premium_cash_flow = q.totals.premium_cash_flow;
  commission = q.totals.actual_commission;
  realized_pnl = q.totals.realized_pnl;
  daily_close_pnl = q.totals.daily_close_pnl;
}

-- The writes, whatever the checks after them say.
unfoldable pub written_close : CloseRequest → CloseRows → Prepared → Closed
unfolding trade_of
written_close r rows q =
    let written = write_consumptions q.is_option q.consumptions (rows.lots, rows.allocations) in
    record {
      order = settle_order q.is_option q.totals r.fill_price r.fill_volume rows.order;
      account = settle_account q.is_option r.option_collateral_ratio q.side q.totals rows.account;
      position =
          settle_position q.is_option q.totals rows.order.trading_day r.fill_volume written.0
            q.position;
      lots = written.0;
      allocations = written.1;
      trade = trade_of r q;
      parts = map (part_of r rows.order) q.consumptions;
    }

abbrev pub parts_add_up : CloseTrade → List TradePositionAllocation → Bool
parts_add_up t parts =
    eqb_ℤ (total (λ x. x.close_volume) parts) t.trade_volume
    && (eqb_ℤ (total (λ x. x.released_margin) parts) t.margin
        && (eqb_ℤ (total (λ x. x.realized_pnl) parts) t.realized_pnl
            && eqb_ℤ (total (λ x. x.commission) parts) t.commission))

abbrev pub rows_add_up : OrderRow → PositionRow → List AllocationRow → Bool
rows_add_up o p allocations =
    eqb_ℤ p.total_volume (p.today_volume +ℤ p.yesterday_volume)
    && (eqb_ℤ p.available_volume (p.total_volume -ℤ p.frozen_volume -ℤ p.settlement_locked_volume)
        && (eqb_ℤ o.total_volume (o.traded_volume +ℤ o.remaining_volume +ℤ o.cancelled_volume)
            && (eqb_ℤ (total (λ a. a.remaining_frozen_volume) allocations) o.frozen_position_volume
                && eqb_ℤ (total (λ a. a.remaining_frozen_commission) allocations)
                    o.frozen_commission)))

unfoldable pub write_close : CloseRequest → CloseRows → Prepared → Result Closed
unfolding written_close
write_close r rows q =
    let c = written_close r rows q in
    raise_if (not (parts_add_up c.trade c.parts)) trade_position_allocation_inconsistent
    >> (raise_if (not (rows_add_up c.order c.position c.allocations)) close_position_inconsistent
        >> ok c)

unfoldable pub apply_close : CloseRequest → CloseRows → Result Closed
unfolding prepare_close write_close
apply_close r rows = prepare_close r rows >>= write_close r rows
