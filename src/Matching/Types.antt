-- ===== src/Matching/Types.antt =====
-- The snapshots of app/matching/types.py, and the reasons for which an order is not matched.
use Prim.Native.String.{String}
use sim_trade.Prelude.{Bool, Option}
use sim_trade.Prelude.Int.{ℤ}
use sim_trade.Enums.{OrderDirection, OffsetFlag, OrderType}
use sim_trade.Money.{Decimal}

-- `none` is a direction that is no member of the enumeration.
pub record MatchingOrder : Type 0 where
  pub direction : Option OrderDirection
  pub offset_flag : OffsetFlag
  pub order_type : OrderType
  pub limit_price : Decimal
  pub remaining_volume : ℤ

pub record MatchingMarketData : Type 0 where
  pub bid_price_1 : Option Decimal
  pub bid_volume_1 : ℤ
  pub ask_price_1 : Option Decimal
  pub ask_volume_1 : ℤ

pub data Reason : Type 0 where
  no_remaining_volume invalid_ask_price no_ask_volume buy_limit_not_reached : Reason
  invalid_bid_price no_bid_volume sell_limit_not_reached : Reason
  unsupported_direction unsupported_instrument : Reason

pub record MatchResult : Type 0 where
  pub matched : Bool
  pub fill_price : Option Decimal
  pub fill_volume : ℤ
  pub reason : Option Reason
  pub engine_name : String
  pub engine_version : String
