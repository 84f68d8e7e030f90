-- ===== src/Matching/CashSecurity/Agreement.antt =====
-- The two engines agree: an instrument type changes who matches an order, and not the result.
use sim_trade.Prelude.{◌≡◌, refl, true, Option, none, some, arith}
use sim_trade.Enums.{OrderDirection, buy, sell, OffsetFlag, OrderType}
use sim_trade.Money.{Decimal}
use sim_trade.Matching.Types.{MatchingOrder, MatchingMarketData, MatchResult}
use sim_trade.Matching.Vn
use sim_trade.Matching.Vn.{match_order}
use sim_trade.Matching.CashSecurity.{
  CashSecurityOrderSnapshot, CashSecurityMatchResult, is_cash_security, by_direction, match_cash,
}

-- What the two results have in common.
abbrev pub cash_view : MatchResult → CashSecurityMatchResult
cash_view r = record {
  matched = r.matched;
  fill_price = r.fill_price;
  fill_volume = r.fill_volume;
  reason = r.reason;
}

-- The order as the VN engine gets it.
abbrev pub as_matching_order : OffsetFlag → OrderType → CashSecurityOrderSnapshot → MatchingOrder
as_matching_order flag type order = record {
  direction = order.direction;
  offset_flag = flag;
  order_type = type;
  limit_price = order.limit_price;
  remaining_volume = order.remaining_volume;
}

by_direction-agrees :
    (flag : OffsetFlag) (type : OrderType)
    → (order : CashSecurityOrderSnapshot) (market : MatchingMarketData)
    → (d : Option OrderDirection) (ask bid : Option Decimal)
    → by_direction d order (record market { ask_price_1 = ask; bid_price_1 = bid })
      ≡ cash_view (
          Vn.by_direction d
            (as_matching_order flag type order)
            (record market { ask_price_1 = ask; bid_price_1 = bid }))
unfolding by_direction Vn.by_direction
by_direction-agrees flag type order market none ask bid = refl
by_direction-agrees flag type order market (some buy) none bid = refl
by_direction-agrees flag type order market (some buy) (some p) bid = ground arith
by_direction-agrees flag type order market (some sell) ask none = refl
by_direction-agrees flag type order market (some sell) ask (some p) = ground arith

-- For a stock, a convertible bond or an ETF the cash strategy gives the VN engine's result, whatever
-- the offset flag and the order type.
pub match_cash-agrees :
    (flag : OffsetFlag) (type : OrderType)
    → (order : CashSecurityOrderSnapshot) (market : MatchingMarketData)
    → is_cash_security order.instrument_type ≡ true
    → match_cash order market ≡ cash_view (match_order (as_matching_order flag type order) market)
unfolding match_cash match_order
match_cash-agrees flag type order market h = ground (
  arith,
  by_direction-agrees flag type order market order.direction market.ask_price_1 market.bid_price_1,
)
