-- ===== src/Matching/Vn.antt =====
-- The VN engine, app/matching/engines/vn.py.
pub mod Laws
mod Tests
use Prim.Native.String.{String}
use sim_trade.Prelude.{Bool, true, false, Option, none, some, if◌then◌else◌}
use sim_trade.Prelude.Int.{ℤ, pos, leb_ℤ, min_ℤ}
use sim_trade.Enums.{OrderDirection, buy, sell}
use sim_trade.Money.{Decimal, lt_decimal, is_nonpositive}
use sim_trade.Matching.Types.{
  MatchingOrder, MatchingMarketData, Reason, no_remaining_volume, invalid_ask_price, no_ask_volume,
  buy_limit_not_reached, invalid_bid_price, no_bid_volume, sell_limit_not_reached,
  unsupported_direction, MatchResult,
}

abbrev pub engine : String
engine = "VN"

abbrev pub version : String
version = "1.0"

pub not_matched : Reason → MatchResult
not_matched r = record {
  matched = false;
  fill_price = none;
  fill_volume = pos 0;
  reason = some r;
  engine_name = engine;
  engine_version = version;
}

pub fill : MatchingOrder → Decimal → ℤ → MatchResult
fill order price market_volume = record {
  matched = true;
  fill_price = some price;
  fill_volume = min_ℤ order.remaining_volume market_volume;
  reason = none;
  engine_name = engine;
  engine_version = version;
}

-- A buy order against the best ask.
pub match_buy : MatchingOrder → Option Decimal → ℤ → MatchResult
unfolding not_matched fill
match_buy order none volume = not_matched invalid_ask_price
match_buy order (some price) volume =
    if is_nonpositive price
    then not_matched invalid_ask_price
    else if leb_ℤ volume (pos 0)
    then not_matched no_ask_volume
    else if lt_decimal order.limit_price price
    then not_matched buy_limit_not_reached
    else fill order price volume

-- A sell order against the best bid.
pub match_sell : MatchingOrder → Option Decimal → ℤ → MatchResult
unfolding not_matched fill
match_sell order none volume = not_matched invalid_bid_price
match_sell order (some price) volume =
    if is_nonpositive price
    then not_matched invalid_bid_price
    else if leb_ℤ volume (pos 0)
    then not_matched no_bid_volume
    else if lt_decimal price order.limit_price
    then not_matched sell_limit_not_reached
    else fill order price volume

unfoldable pub by_direction :
    Option OrderDirection → MatchingOrder → MatchingMarketData → MatchResult
unfolding match_buy match_sell
by_direction (some buy) order market = match_buy order market.ask_price_1 market.ask_volume_1
by_direction (some sell) order market = match_sell order market.bid_price_1 market.bid_volume_1
by_direction none order market = not_matched unsupported_direction

-- `VnMatchingEngine.match`
unfoldable pub match_order : MatchingOrder → MatchingMarketData → MatchResult
unfolding by_direction
match_order order market =
    if leb_ℤ order.remaining_volume (pos 0)
    then not_matched no_remaining_volume
    else by_direction order.direction order market
