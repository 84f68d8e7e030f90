-- ===== src/Settlement/Rows.antt =====
-- The rows that the settlement of a fill locks: app/models/order.py, app/models/position.py,
-- app/models/position_detail.py and app/models/position_freeze_allocation.py. Identifiers, dates and texts
-- that are only compared are numbers; `margin_rule` is the identifier, the version and the snapshot of a
-- margin rule, which are compared together.
use sim_trade.Prelude.{ℕ, Bool, Option}
use sim_trade.Prelude.Int.{ℤ}
use sim_trade.Enums.{
  OrderDirection, OrderStatus, OrderType, OffsetFlag, PositionDirection, CommissionType,
  InstrumentType,
}
use sim_trade.Money.{Decimal, Money}
use sim_trade.Fees.Buckets.{FeeBucketKey}
use sim_trade.Orders.Allocations.{PositionFreezeAllocationStatus}

pub data PositionDetailStatus : Type 0 where
  open_detail closed_detail : PositionDetailStatus

-- The columns of a `PositionDetail` that a fill reads or writes.
pub record LotRow : Type 0 where
  pub position_detail_id : ℕ
  pub position_id : ℕ
  pub account_id : ℕ
  pub exchange_id : ℕ
  pub symbol : ℕ
  pub direction : Option PositionDirection
  pub open_trading_day : ℕ
  pub remaining_volume : ℤ
  pub frozen_volume : ℤ
  pub remaining_margin : Money
  pub realtime_required_margin : Money
  pub open_price : Decimal
  pub pnl_base_price : Decimal
  pub original_volume : ℤ
  pub open_margin : Money
  pub initial_occupied_margin : Money
  pub open_commission : Money
  pub multiplier_snapshot : Decimal
  pub status : PositionDetailStatus

-- The columns of a `PositionFreezeAllocation` that a fill reads or writes. `key` holds the flag and
-- the snapshot of the commission rule.
pub record AllocationRow : Type 0 where
  pub allocation_id : ℕ
  pub order_id : ℕ
  pub position_id : ℕ
  pub account_id : ℕ
  pub exchange_id : ℕ
  pub symbol : ℕ
  pub position_detail_id : ℕ
  pub key : FeeBucketKey (Option CommissionType)
  pub original_frozen_volume : ℤ
  pub remaining_frozen_volume : ℤ
  pub consumed_volume : ℤ
  pub released_volume : ℤ
  pub original_frozen_commission : Money
  pub remaining_frozen_commission : Money
  pub consumed_commission : Money
  pub released_commission : Money
  pub status : PositionFreezeAllocationStatus

-- The columns of an `Order` that a fill reads or writes.
pub record OrderRow : Type 0 where
  pub order_id : ℕ
  pub account_id : ℕ
  pub exchange_id : ℕ
  pub symbol : ℕ
  pub trading_day : ℕ
  pub instrument_type : Option InstrumentType
  pub direction : Option OrderDirection
  pub offset_flag : Option OffsetFlag
  pub order_type : Option OrderType
  pub limit_price : Decimal
  pub commission_type : Option CommissionType
  pub commission_parameter : Decimal
  pub commission_contract_multiplier : Decimal
  pub margin_rule : ℕ
  pub margin_risk_is_normal : Bool
  pub frozen_margin : Money
  pub status : OrderStatus
  pub total_volume : ℤ
  pub traded_volume : ℤ
  pub remaining_volume : ℤ
  pub cancelled_volume : ℤ
  pub average_price : Money
  pub frozen_commission : Money
  pub frozen_cash : Money
  pub frozen_position_volume : ℤ

-- The columns of a `Position` that a fill reads or writes.
pub record PositionRow : Type 0 where
  pub position_id : ℕ
  pub direction : Option PositionDirection
  pub multiplier_snapshot : Decimal
  pub margin_rule : ℕ
  pub trading_day : ℕ
  pub initial_occupied_margin : Money
  pub total_volume : ℤ
  pub today_volume : ℤ
  pub yesterday_volume : ℤ
  pub frozen_volume : ℤ
  pub settlement_locked_volume : ℤ
  pub available_volume : ℤ
  pub average_open_price : Money
  pub position_cost : Money
  pub used_margin : Money
  pub realtime_required_margin : Money
  pub option_market_value : Money
  pub unrealized_pnl : Money
  pub realized_pnl : Money
  pub daily_close_pnl : Money
