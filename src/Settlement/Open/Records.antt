-- ===== src/Settlement/Open/Records.antt =====
-- The arguments of the settlement of an opening fill, the rows that it locks, and what it makes of them:
-- app/services/trade_settlement_service.py and app/models/trade.py.
use sim_trade.Prelude.{ℕ, Option, List}
use sim_trade.Prelude.Int.{ℤ}
use sim_trade.Money.{Decimal, Money}
use sim_trade.Settlement.Rows.{LotRow, OrderRow, PositionRow}
use sim_trade.Settlement.Funds.{AccountRow}

-- What the matching found, and the identifiers that the factories give.
pub record OpenRequest : Type 0 where
  pub fill_volume : ℤ
  pub fill_price : Decimal
  pub option_collateral_ratio : Decimal
  pub position_id : ℕ
  pub position_detail_id : ℕ

-- `lots` are all lots of the position.
pub record OpenRows : Type 0 where
  pub order : OrderRow
  pub account : AccountRow
  pub position : Option PositionRow
  pub lots : List LotRow

-- The parts of the frozen amounts that go with the fill, its fee and what it costs.
pub record OpenAmounts : Type 0 where
  pub margin : Money
  pub released_cash : Money
  pub released_commission : Money
  pub commission : Money
  pub turnover : Money

pub record OpenTrade : Type 0 where
  pub trade_price : Decimal
  pub trade_volume : ℤ
  pub turnover : Money
  pub margin : Money
  pub premium_cash_flow : Money
  pub commission : Money

pub record Opened : Type 0 where
  pub order : OrderRow
  pub account : AccountRow
  pub position : PositionRow
  pub lots : List LotRow
  pub trade : OpenTrade
