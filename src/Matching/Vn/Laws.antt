-- ===== src/Matching/Vn/Laws.antt =====
-- When the VN engine fills an order, and at what price and volume.
use sim_trade.Prelude.{
  if◌then◌else◌, ◌≡◌, ◌↔◌, ◌⊎◌, refl, Bool, true, false, Option, none, some, arith, inl, inr,
}
use sim_trade.Prelude.Int.{ℤ, pos, ◌≤ℤ◌, ◌<ℤ◌, min_ℤ}
use sim_trade.Enums.{OrderDirection, buy, sell}
use sim_trade.Money.{Decimal, lt_decimal}
use sim_trade.Matching.Types.{MatchingOrder, MatchingMarketData, Reason, MatchResult}
use sim_trade.Matching.Vn.{not_matched, fill, match_order, match_buy, match_sell, by_direction}

-- The opposite side of the book.
abbrev pub opposite_price : OrderDirection → MatchingMarketData → Option Decimal
opposite_price buy market = market.ask_price_1
opposite_price sell market = market.bid_price_1

abbrev pub opposite_volume : OrderDirection → MatchingMarketData → ℤ
opposite_volume buy market = market.ask_volume_1
opposite_volume sell market = market.bid_volume_1

-- A price is worse than the order's limit.
abbrev pub worse_than_limit : OrderDirection → Decimal → Decimal → Bool
worse_than_limit buy price limit = lt_decimal limit price
worse_than_limit sell price limit = lt_decimal price limit

-- The order can trade at `price` in the direction `d`.
pub record IsTradable (order : MatchingOrder) (market : MatchingMarketData) (d : OrderDirection)
    (price : Decimal) : Type 0 where
  pub known : order.direction ≡ some d
  pub remaining : pos 0 <ℤ order.remaining_volume
  pub quoted : opposite_price d market ≡ some price
  pub price_pos : pos 0 <ℤ price.coefficient
  pub volume_pos : pos 0 <ℤ opposite_volume d market
  pub within_limit : worse_than_limit d price order.limit_price ≡ false

-- An order that can trade is filled at the opposite price, by the smaller of the two volumes.
pub match_order-fills :
    (order : MatchingOrder) (market : MatchingMarketData) (d : OrderDirection) (price : Decimal)
    → IsTradable order market d price
    → let r = match_order order market in
      (r.matched ≡ true)
      × (r.fill_price ≡ some price)
      × (r.fill_volume ≡ min_ℤ order.remaining_volume (opposite_volume d market))
      × (r.reason ≡ none)
unfolding match_order
match_order-fills order market buy price t = ground arith
match_order-fills order market sell price t = ground arith

IsTradable-of_buy :
    (order : MatchingOrder) (market : MatchingMarketData) (ask : Option Decimal)
    → order.direction ≡ some buy
    → market.ask_price_1 ≡ ask
    → pos 0 <ℤ order.remaining_volume
    → (match_buy order ask market.ask_volume_1).matched ≡ true
    → (price : Decimal) × IsTradable order market buy price
unfolding match_buy
IsTradable-of_buy order market none d q r h = cc
IsTradable-of_buy order market (some price) d q r h = (
  price,
  record {
    known = d;
    remaining = r;
    quoted = q;
    price_pos = ground arith;
    volume_pos = ground arith;
    within_limit = ground arith;
  },
)

IsTradable-of_sell :
    (order : MatchingOrder) (market : MatchingMarketData) (bid : Option Decimal)
    → order.direction ≡ some sell
    → market.bid_price_1 ≡ bid
    → pos 0 <ℤ order.remaining_volume
    → (match_sell order bid market.bid_volume_1).matched ≡ true
    → (price : Decimal) × IsTradable order market sell price
unfolding match_sell
IsTradable-of_sell order market none d q r h = cc
IsTradable-of_sell order market (some price) d q r h = (
  price,
  record {
    known = d;
    remaining = r;
    quoted = q;
    price_pos = ground arith;
    volume_pos = ground arith;
    within_limit = ground arith;
  },
)

by_direction-IsTradable :
    (order : MatchingOrder) (market : MatchingMarketData) (d : Option OrderDirection)
    → order.direction ≡ d
    → pos 0 <ℤ order.remaining_volume
    → (by_direction d order market).matched ≡ true
    → (side : OrderDirection) × ((price : Decimal) × IsTradable order market side price)
unfolding by_direction
by_direction-IsTradable order market none e r h = cc
by_direction-IsTradable order market (some buy) e r h =
    (buy, IsTradable-of_buy order market market.ask_price_1 e refl r h)
by_direction-IsTradable order market (some sell) e r h =
    (sell, IsTradable-of_sell order market market.bid_price_1 e refl r h)

match_order-IsTradable :
    (order : MatchingOrder) (market : MatchingMarketData)
    → (match_order order market).matched ≡ true
    → (side : OrderDirection) × ((price : Decimal) × IsTradable order market side price)
unfolding match_order
match_order-IsTradable order market h =
    by_direction-IsTradable order market order.direction refl (ground arith) (ground arith)

-- An order is matched exactly when it has a volume left and a known direction, and the opposite side
-- of the book has a positive volume at a positive price that is no worse than the limit.
pub match_order_iff :
    (order : MatchingOrder) (market : MatchingMarketData)
    → ((match_order order market).matched ≡ true)
      ↔ ((side : OrderDirection) × ((price : Decimal) × IsTradable order market side price))
match_order_iff order market = (
  match_order-IsTradable order market,
  λ (side, (price, t)). (match_order-fills order market side price t).0,
)

-- A result without a fill: no price, no volume and a reason.
abbrev pub IsRefused : MatchResult → Type 0
IsRefused r =
    (r.matched ≡ false)
    × (r.fill_price ≡ none)
    × (r.fill_volume ≡ pos 0)
    × ((why : Reason) × (r.reason ≡ some why))

data IsSettled (r : MatchResult) : Type 0 where
  as_fill : r.matched ≡ true → IsSettled r
  as_refusal : IsRefused r → IsSettled r

not_matched-IsSettled : (why : Reason) → IsSettled (not_matched why)
unfolding not_matched
not_matched-IsSettled why = as_refusal (refl, refl, refl, (why, refl))

guarded-IsSettled :
    (b : Bool) (why : Reason) (r : MatchResult)
    → IsSettled r
    → IsSettled (if b then not_matched why else r)
guarded-IsSettled true why r h = not_matched-IsSettled why
guarded-IsSettled false why r h = h

fill-IsSettled : (order : MatchingOrder) (price : Decimal) (v : ℤ) → IsSettled (fill order price v)
unfolding fill
fill-IsSettled order price v = as_fill refl

ruleset settled_rules = (not_matched-IsSettled, guarded-IsSettled, fill-IsSettled)

match_buy-IsSettled :
    (order : MatchingOrder) (ask : Option Decimal) (v : ℤ) → IsSettled (match_buy order ask v)
unfolding match_buy
match_buy-IsSettled order none v = not_matched-IsSettled _
match_buy-IsSettled order (some p) v = search settled_rules

match_sell-IsSettled :
    (order : MatchingOrder) (bid : Option Decimal) (v : ℤ) → IsSettled (match_sell order bid v)
unfolding match_sell
match_sell-IsSettled order none v = not_matched-IsSettled _
match_sell-IsSettled order (some p) v = search settled_rules

by_direction-IsSettled :
    (d : Option OrderDirection) (order : MatchingOrder) (market : MatchingMarketData)
    → IsSettled (by_direction d order market)
unfolding by_direction
by_direction-IsSettled none order market = not_matched-IsSettled _
by_direction-IsSettled (some buy) order market =
    match_buy-IsSettled order market.ask_price_1 market.ask_volume_1
by_direction-IsSettled (some sell) order market =
    match_sell-IsSettled order market.bid_price_1 market.bid_volume_1

match_order-IsSettled :
    (order : MatchingOrder) (market : MatchingMarketData) → IsSettled (match_order order market)
unfolding match_order
match_order-IsSettled order market = search (settled_rules, by_direction-IsSettled)

-- What a fill is: at the opposite price, of at least one unit, and of no more than the order has
-- left or the opposite side shows.
pub record IsFill (order : MatchingOrder) (market : MatchingMarketData) (r : MatchResult)
    : Type 0 where
  pub side : OrderDirection
  pub price : Decimal
  pub tradable : IsTradable order market side price
  pub at_price : r.fill_price ≡ some price
  pub at_least_one : pos 0 <ℤ r.fill_volume
  pub within_order : r.fill_volume ≤ℤ order.remaining_volume
  pub within_book : r.fill_volume ≤ℤ opposite_volume side market
  pub no_reason : r.reason ≡ none

tradable-IsFill :
    (order : MatchingOrder) (market : MatchingMarketData) (d : OrderDirection) (price : Decimal)
    → IsTradable order market d price
    → IsFill order market (match_order order market)
tradable-IsFill order market d price t =
    let (_, at_price, volume, reason) = match_order-fills order market d price t in
    record {
      side = d;
      price = price;
      tradable = t;
      at_price = at_price;
      at_least_one = rw volume (ground (arith, t.remaining, t.volume_pos));
      within_order = rw volume (ground arith);
      within_book = rw volume (ground arith);
      no_reason = reason;
    }

-- Every result is a fill within the order and the book, or a refusal with no price, no volume and a
-- reason.
pub match_order_outcome :
    (order : MatchingOrder) (market : MatchingMarketData)
    → IsFill order market (match_order order market) ⊎ IsRefused (match_order order market)
match_order_outcome order market = elim (match_order-IsSettled order market) [
  | as_fill m ↦
      let (d, (price, t)) = match_order-IsTradable order market m in
      inl (tradable-IsFill order market d price t)
  | as_refusal refused ↦ inr refused
]
