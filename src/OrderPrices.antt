-- ===== src/OrderPrices.antt =====
-- The price of an order: `OrderPriceResolver`, app/services/order_price_resolver.py, and
-- `validate_price_tick`, app/services/price_tick_validation.py. The event that the market snapshot
-- service gives for the instrument and the clock are arguments. A time is in microseconds.
pub mod Rounding
pub mod Protection
pub mod Sources
pub mod Quotes
mod Tests
use Prim.Native.String.{String}
use sim_trade.Prelude.{
  ℕ, zero, suc, ◌+◌, ◌-◌, ◌*◌, ◌/◌, ◌%◌, ◌^◌, Bool, true, false, not, ◌&&◌, ◌||◌, Option, none,
  some, ◌==◌, if◌then◌else◌,
}
use sim_trade.Prelude.Int.{
  ℤ, pos, negsuc, pos_part, neg_part, ◌+ℤ◌, ◌-ℤ◌, ◌*ℤ◌, ltb_ℤ, leb_ℤ, eqb_ℤ,
}
use sim_trade.Errors.{
  ErrorCode, Result, ok, err, ◌>>=◌, ◌>>◌, raise_if, order_price_market_data_unavailable,
  order_price_market_data_invalid, order_price_trading_day_mismatch,
  market_protection_price_invalid, ask1_missing, bid1_missing, last_price_missing,
  order_price_book_empty, invalid_price_tick, price_tick_mismatch, value_error, division_by_zero,
  assertion_error,
}
use sim_trade.Enums.{OrderDirection, buy, sell, OrderType, limit, counterparty, last, market}
use sim_trade.Money.{Decimal, of_int, times, plus, minus, lt_decimal, is_nonpositive}

-- `price % tick` is not 0.
abbrev is_off_tick : Decimal → Decimal → Bool
is_off_tick price tick = not (
    ((pos_part price.coefficient + neg_part price.coefficient)
      * 10 ^ tick.places
      % (pos_part tick.coefficient * 10 ^ price.places))
    == 0)

pub validate_price_tick : Decimal → Decimal → Result (Unit {0})
validate_price_tick price price_tick = do
  raise_if (is_nonpositive price_tick) invalid_price_tick
  raise_if (is_off_tick price price_tick) price_tick_mismatch
  ok tt

-- `(n / d).to_integral_value(...)` for a positive divisor: upwards or downwards.
pub ceiling_of : ℤ → ℕ → ℤ
ceiling_of (pos n) d = pos ((n + (d - 1)) / d)
ceiling_of (negsuc n) d = pos 0 -ℤ pos (suc n / d)

pub floor_of : ℤ → ℕ → ℤ
floor_of (pos n) d = pos (n / d)
floor_of (negsuc n) d = pos 0 -ℤ pos ((n + d) / d)

pub integral_of : Bool → ℤ → ℤ → ℤ
unfolding ceiling_of floor_of
integral_of true n (pos d) = ceiling_of n d
integral_of true n (negsuc d) = ceiling_of (pos 0 -ℤ n) (suc d)
integral_of false n (pos d) = floor_of n d
integral_of false n (negsuc d) = floor_of (pos 0 -ℤ n) (suc d)

pub round_to_tick : Decimal → Decimal → Bool → Result Decimal
unfolding integral_of
round_to_tick value tick upward =
    if eqb_ℤ tick.coefficient (pos 0)
    then err division_by_zero
    else ok record {
      coefficient =
          integral_of upward (value.coefficient *ℤ pos (10 ^ tick.places))
            (tick.coefficient *ℤ pos (10 ^ value.places))
          *ℤ tick.coefficient;
      places = tick.places;
    }

-- The columns of a tick that are read.
pub record Tick : Type 0 where
  pub has_timezone : Bool
  pub event_time : ℤ
  pub trading_day : ℕ
  pub bid_price_1 : Option Decimal
  pub bid_volume_1 : ℤ
  pub ask_price_1 : Option Decimal
  pub ask_volume_1 : ℤ
  pub last_price : Option Decimal
  pub source : String
  pub source_event_id : String

pub record MarketEvent : Type 0 where
  pub tick : Tick
  pub stream_message_id : Option String

-- The fields of `OrderCreateRequest` that are read.
pub record OrderCreateRequest : Type 0 where
  pub order_type : OrderType
  pub direction : OrderDirection
  pub limit_price : Option Decimal

-- The snapshot columns are those of the event; a limit order has none.
pub record ResolvedOrderPrice : Type 0 where
  pub resolved_price : Decimal
  pub submitted_limit_price : Option Decimal
  pub market_protection_price : Option Decimal
  pub snapshot : Option MarketEvent

-- The bound that `__init__` puts on the rate.
pub check_slippage_rate : Decimal → Result (Unit {0})
check_slippage_rate rate =
    raise_if (ltb_ℤ rate.coefficient (pos 0) || not (lt_decimal rate (of_int (pos 1)))) value_error

abbrev pub is_bad_price : Option Decimal → Bool
is_bad_price none = false
is_bad_price (some price) = is_nonpositive price

abbrev pub is_crossed : Option Decimal → Option Decimal → Bool
is_crossed (some bid) (some ask) = lt_decimal ask bid
is_crossed _ _ = false

pub check_tick : ℤ → ℕ → Tick → Result (Unit {0})
check_tick now trading_day t = do
  raise_if (not t.has_timezone) order_price_market_data_invalid
  raise_if (ltb_ℤ (now +ℤ pos 1000000) t.event_time) order_price_market_data_invalid
  raise_if (not (t.trading_day == trading_day)) order_price_trading_day_mismatch
  raise_if (is_bad_price t.bid_price_1 || is_bad_price t.ask_price_1 || is_bad_price t.last_price)
      order_price_market_data_invalid
  raise_if (ltb_ℤ t.bid_volume_1 (pos 0) || ltb_ℤ t.ask_volume_1 (pos 0))
      order_price_market_data_invalid
  raise_if (is_crossed t.bid_price_1 t.ask_price_1) order_price_market_data_invalid
  ok tt

abbrev pub opposite_price : OrderDirection → Tick → Option Decimal
opposite_price buy t = t.ask_price_1
opposite_price sell t = t.bid_price_1

abbrev pub opposite_volume : OrderDirection → Tick → ℤ
opposite_volume buy t = t.ask_volume_1
opposite_volume sell t = t.bid_volume_1

abbrev pub missing_code : OrderDirection → ErrorCode
missing_code buy = ask1_missing
missing_code sell = bid1_missing

abbrev pub is_buy : OrderDirection → Bool
is_buy buy = true
is_buy sell = false

-- The worst price that a market order may get.
abbrev pub slipped : Decimal → OrderDirection → Decimal → Decimal
slipped rate buy opposite = times opposite (plus (of_int (pos 1)) rate)
slipped rate sell opposite = times opposite (minus (of_int (pos 1)) rate)

pub market_protection : Decimal → Decimal → OrderDirection → Decimal → Result Decimal
unfolding round_to_tick
market_protection rate price_tick direction opposite = do
  protection ← round_to_tick (slipped rate direction opposite) price_tick (is_buy direction)
  raise_if (is_nonpositive protection) market_protection_price_invalid
  ok protection

abbrev pub given : ErrorCode → Option Decimal → Result Decimal
given missing none = err missing
given missing (some price) = ok price

-- The price, and whether it is a protection.
pub priced : Decimal → Decimal → OrderType → OrderDirection → Tick → Result (Decimal × Bool)
unfolding market_protection
priced rate price_tick counterparty direction t =
    given (missing_code direction) (opposite_price direction t) >>= λ price. ok (price, false)
priced rate price_tick last direction t =
    given last_price_missing t.last_price >>= λ price. ok (price, false)
priced rate price_tick _ direction t =
    given (missing_code direction) (opposite_price direction t) >>= λ opposite.
    market_protection rate price_tick direction opposite >>= λ protection. ok (protection, true)

abbrev pub takes_opposite : OrderType → Bool
takes_opposite counterparty = true
takes_opposite market = true
takes_opposite _ = false

-- The part of `resolve` for an order without a limit of its own.
pub resolve_from :
    Decimal → OrderCreateRequest → Decimal → ℕ → ℤ → MarketEvent → Result ResolvedOrderPrice
unfolding check_tick priced
resolve_from rate request price_tick trading_day now event = do
  check_tick now trading_day event.tick
  (price, is_protection) ← priced rate price_tick request.order_type request.direction event.tick
  raise_if
      (takes_opposite request.order_type
        && leb_ℤ (opposite_volume request.direction event.tick) (pos 0))
      order_price_book_empty
  ok record {
    resolved_price = price;
    submitted_limit_price = none;
    market_protection_price = if is_protection then some price else none;
    snapshot = some event;
  }

abbrev limit_of : Option Decimal → Result ResolvedOrderPrice
limit_of none = err assertion_error
limit_of (some price) = ok record {
  resolved_price = price;
  submitted_limit_price = some price;
  market_protection_price = none;
  snapshot = none;
}

abbrev from_event :
    Option MarketEvent → (MarketEvent → Result ResolvedOrderPrice) → Result ResolvedOrderPrice
from_event none next = err order_price_market_data_unavailable
from_event (some event) next = next event

abbrev pub is_limit : OrderType → Bool
is_limit limit = true
is_limit _ = false

pub resolve :
    Decimal → OrderCreateRequest → Decimal → ℕ → ℤ → Option MarketEvent → Result ResolvedOrderPrice
unfolding resolve_from
resolve rate request price_tick trading_day now event =
    if is_limit request.order_type
    then limit_of request.limit_price
    else from_event event (resolve_from rate request price_tick trading_day now)
