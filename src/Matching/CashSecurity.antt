-- ===== src/Matching/CashSecurity.antt =====
-- The strategy for cash securities, app/matching/cash_security.py.
pub mod Agreement
mod Tests
use sim_trade.Prelude.{Bool, true, false, not, Option, none, some, if◌then◌else◌}
use sim_trade.Prelude.Int.{ℤ, pos, leb_ℤ, min_ℤ}
use sim_trade.Enums.{OrderDirection, buy, sell, InstrumentType, stock, convertible_bond, etf}
use sim_trade.Money.{Decimal, lt_decimal, is_nonpositive}
use sim_trade.Matching.Types.{
  MatchingMarketData, Reason, no_remaining_volume, invalid_ask_price, no_ask_volume,
  buy_limit_not_reached, invalid_bid_price, no_bid_volume, sell_limit_not_reached,
  unsupported_direction, unsupported_instrument,
}

-- `order_id` is only carried along, and is left out.
pub record CashSecurityOrderSnapshot : Type 0 where
  pub instrument_type : Option InstrumentType
  pub direction : Option OrderDirection
  pub limit_price : Decimal
  pub remaining_volume : ℤ

-- The market snapshot has the fields of `MatchingMarketData`.
abbrev pub CashSecurityMarketSnapshot : Type 0
CashSecurityMarketSnapshot = MatchingMarketData

pub record CashSecurityMatchResult : Type 0 where
  pub matched : Bool
  pub fill_price : Option Decimal
  pub fill_volume : ℤ
  pub reason : Option Reason

-- `CASH_SECURITY_INSTRUMENT_TYPES`
unfoldable pub is_cash_security : Option InstrumentType → Bool
is_cash_security (some stock) = true
is_cash_security (some convertible_bond) = true
is_cash_security (some etf) = true
is_cash_security _ = false

abbrev refused : Reason → CashSecurityMatchResult
refused r = record { matched = false; fill_price = none; fill_volume = pos 0; reason = some r }

-- A buy order against the best ask, and a sell order against the best bid.
pub against_ask : CashSecurityOrderSnapshot → Option Decimal → ℤ → CashSecurityMatchResult
against_ask order none volume = refused invalid_ask_price
against_ask order (some price) volume =
    if is_nonpositive price
    then refused invalid_ask_price
    else if leb_ℤ volume (pos 0)
    then refused no_ask_volume
    else if lt_decimal order.limit_price price
    then refused buy_limit_not_reached
    else record {
      matched = true;
      fill_price = some price;
      fill_volume = min_ℤ order.remaining_volume volume;
      reason = none;
    }

pub against_bid : CashSecurityOrderSnapshot → Option Decimal → ℤ → CashSecurityMatchResult
against_bid order none volume = refused invalid_bid_price
against_bid order (some price) volume =
    if is_nonpositive price
    then refused invalid_bid_price
    else if leb_ℤ volume (pos 0)
    then refused no_bid_volume
    else if lt_decimal price order.limit_price
    then refused sell_limit_not_reached
    else record {
      matched = true;
      fill_price = some price;
      fill_volume = min_ℤ order.remaining_volume volume;
      reason = none;
    }

by_direction :
    Option OrderDirection
    → CashSecurityOrderSnapshot
    → CashSecurityMarketSnapshot
    → CashSecurityMatchResult
unfolding against_ask against_bid
by_direction (some buy) order market = against_ask order market.ask_price_1 market.ask_volume_1
by_direction (some sell) order market = against_bid order market.bid_price_1 market.bid_volume_1
by_direction none order market = refused unsupported_direction

-- `CashSecurityMatchingStrategy.match`
pub match_cash : CashSecurityOrderSnapshot → CashSecurityMarketSnapshot → CashSecurityMatchResult
unfolding is_cash_security by_direction
match_cash order market =
    if not (is_cash_security order.instrument_type)
    then refused unsupported_instrument
    else if leb_ℤ order.remaining_volume (pos 0)
    then refused no_remaining_volume
    else by_direction order.direction order market
