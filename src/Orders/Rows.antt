-- ===== src/Orders/Rows.antt =====
-- The rows that the order services lock and write: app/models/order.py and app/models/position.py, the
-- events of the outbox, and the arguments of a cancellation. Identifiers and texts that are only
-- compared are numbers.
use sim_trade.Prelude.{ℕ, Bool, Option, List}
use sim_trade.Prelude.Int.{ℤ}
use sim_trade.Enums.{
  OrderDirection, OffsetFlag, OrderType, OrderStatus, PositionDirection, InstrumentType,
}
use sim_trade.Money.{Money}
use sim_trade.Orders.Account.{Account}
use sim_trade.Orders.Allocations.{Lot, PositionFreezeAllocation}

pub data CancelReason : Type 0 where
  market_remainder_cancelled user_request : CancelReason

-- The columns of an `Order` that a cancellation reads or writes.
pub record Order : Type 0 where
  pub order_id : ℕ
  pub account_id : ℕ
  pub exchange_id : ℕ
  pub symbol : ℕ
  pub trading_day : ℕ
  pub instrument_type : Option InstrumentType
  pub direction : Option OrderDirection
  pub offset_flag : Option OffsetFlag
  pub order_type : Option OrderType
  pub status : Option OrderStatus
  pub total_volume : ℤ
  pub traded_volume : ℤ
  pub remaining_volume : ℤ
  pub cancelled_volume : ℤ
  pub frozen_margin : Money
  pub frozen_cash : Money
  pub frozen_commission : Money
  pub frozen_position_volume : ℤ
  pub margin_risk_is_normal : Bool
  pub cancelled_at : Option ℕ
  pub cancel_reason_code : Option CancelReason

pub record Position : Type 0 where
  pub position_id : ℕ
  pub direction : Option PositionDirection
  pub total_volume : ℤ
  pub frozen_volume : ℤ
  pub settlement_locked_volume : ℤ
  pub available_volume : ℤ

-- The events of the outbox, with the rows that their payloads are made of.
pub data Event : Type 0 where
  order_cancelled order_partially_cancelled : Order → Money → Money → Money → Event
  account_updated : Account → Event
  position_updated : Position → Event

pub record Rows : Type 0 where
  pub order : Option Order
  pub account : Option Account
  pub position : Option Position
  pub lots : List Lot
  pub allocations : List PositionFreezeAllocation
  pub events : List Event

-- The arguments of the call, what `ensure_trading_open` finds, and the clock.
pub record Request : Type 0 where
  pub account_id : ℕ
  pub settlement_internal : Bool
  pub market_auto_cancel : Bool
  pub conceal_resource_existence : Bool
  pub trading_is_open : Bool
  pub now : ℕ
