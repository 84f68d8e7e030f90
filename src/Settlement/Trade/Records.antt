-- ===== src/Settlement/Trade/Records.antt =====
-- The command, the result and the rows of a settlement: app/services/trade_settlement_service.py.
use sim_trade.Prelude.{ℕ, Bool, Option, List}
use sim_trade.Errors.{Result}
use sim_trade.Enums.{InstrumentType}
use sim_trade.Money.{Decimal}
use sim_trade.Matching.Types.{MatchResult}
use sim_trade.Settlement.Rows.{LotRow, AllocationRow, OrderRow, PositionRow}
use sim_trade.Settlement.Funds.{AccountRow}

-- The command with the setting and the identifiers that the call uses.
pub record SettlementCommand : Type 0 where
  pub match_result : MatchResult
  pub option_collateral_ratio : Decimal
  pub trade_id : ℕ
  pub position_id : ℕ
  pub position_detail_id : ℕ

pub data SettlementAction : Type 0 where
  not_matched order_missing idempotent order_inactive margin_refused settled : SettlementAction

pub record SettlementResult : Type 0 where
  pub trade_id : Option ℕ
  pub action : SettlementAction

pub data TradeEvent : Type 0 where
  trade_created : ℕ → TradeEvent
  order_filled order_partially_filled : OrderRow → TradeEvent
  position_updated : PositionRow → TradeEvent
  account_updated : AccountRow → TradeEvent

-- `traded` is the trade of this order and market event, `position` and `lots` are those of the side that
-- the order opens or closes.
pub record TradeRows : Type 0 where
  pub order : Option OrderRow
  pub traded : Option ℕ
  pub account : Option AccountRow
  pub instrument : Option (Option InstrumentType)
  pub position : Option PositionRow
  pub lots : List LotRow
  pub allocations : List AllocationRow
  pub events : List TradeEvent

-- What the check of the margin of an option order answers if it raises nothing, with the rows that it may have written.
pub record MarginCheck : Type 0 where
  pub is_refused : Bool
  pub order : OrderRow
  pub account : AccountRow

-- What the database does with the writes.
pub data StoreOutcome : Type 0 where
  stored integrity_error database_error : StoreOutcome

-- The latest batch of the daily settlement.
pub record Batch : Type 0 where
  pub is_completed : Bool
  pub trading_day : ℕ

-- What the call meets besides its rows: `raced` is the trade that is found after a conflict.
pub record Surroundings : Type 0 where
  pub latest_batch : Option Batch
  pub ensure_locked : OrderRow → AccountRow → Result MarginCheck
  pub store : StoreOutcome
  pub raced : Option ℕ
