-- ===== src/Settlement/Close/Records.antt =====
-- The arguments of the settlement of a closing fill, the rows that it locks, and what it makes of them:
-- app/services/close_trade_settlement_handler.py, app/models/trade.py and
-- app/models/trade_position_allocation.py.
use sim_trade.Prelude.{ℕ, Bool, Option, List}
use sim_trade.Prelude.Int.{ℤ}
use sim_trade.Enums.{OffsetFlag, PositionDirection}
use sim_trade.Money.{Decimal, Money}
use sim_trade.Settlement.Rows.{LotRow, AllocationRow, OrderRow, PositionRow}
use sim_trade.Settlement.Consumption.{CloseConsumption}
use sim_trade.Settlement.Funds.{AccountRow, FillTotals}

pub record CloseRequest : Type 0 where
  pub fill_volume : ℤ
  pub fill_price : Decimal
  pub option_collateral_ratio : Decimal

-- `lots` are all lots of the position.
pub record CloseRows : Type 0 where
  pub order : OrderRow
  pub account : AccountRow
  pub position : Option PositionRow
  pub lots : List LotRow
  pub allocations : List AllocationRow

-- The columns of the `Trade` that the settlement computes.
pub record CloseTrade : Type 0 where
  pub trade_price : Decimal
  pub trade_volume : ℤ
  pub turnover : Money
  pub margin : Money
  pub premium_cash_flow : Money
  pub commission : Money
  pub realized_pnl : Money
  pub daily_close_pnl : Money

pub record TradePositionAllocation : Type 0 where
  pub allocation_id : ℕ
  pub position_detail_id : ℕ
  pub resolved_offset_flag : OffsetFlag
  pub open_trading_day : ℕ
  pub close_trading_day : ℕ
  pub open_price : Decimal
  pub close_price : Decimal
  pub close_volume : ℤ
  pub released_margin : Money
  pub commission : Money
  pub realized_pnl : Money
  pub daily_close_pnl : Money

-- What is known before anything is written.
pub record Prepared : Type 0 where
  pub is_option : Bool
  pub side : PositionDirection
  pub position : PositionRow
  pub consumptions : List CloseConsumption
  pub totals : FillTotals

-- The rows after the fill, and what it adds to the two tables of trades.
pub record Closed : Type 0 where
  pub order : OrderRow
  pub account : AccountRow
  pub position : PositionRow
  pub lots : List LotRow
  pub allocations : List AllocationRow
  pub trade : CloseTrade
  pub parts : List TradePositionAllocation
