-- ===== src/OrderPrices/Tests.antt =====
-- Runs of the resolver, and the theorems at them.
use sim_trade.Prelude.{◌≡◌, refl, true, false, some, none, arith, if◌then◌else◌}
use sim_trade.Prelude.Int.{pos, ◌-ℤ◌, ◌+ℤ◌, ◌*ℤ◌}
use sim_trade.Errors.{ok, err, market_protection_price_invalid}
use sim_trade.Enums.{sell, market}
use sim_trade.Money.{Decimal, minus, is_nonpositive}
use sim_trade.OrderPrices.{
  MarketEvent, OrderCreateRequest, ResolvedOrderPrice, check_slippage_rate, market_protection,
  resolve, slipped, validate_price_tick,
}
use sim_trade.OrderPrices.Rounding.{IsRounded}
use sim_trade.OrderPrices.Protection.{market_protection-IsRounded}
use sim_trade.OrderPrices.Quotes.{resolve-IsQuoted, IsQuoted}

-- 0.02, 0.2 and 3501.4
abbrev two_percent : Decimal
two_percent = record { coefficient = pos 2; places = 2 }

abbrev fifth : Decimal
fifth = record { coefficient = pos 2; places = 1 }

abbrev bid : Decimal
bid = record { coefficient = pos 35014; places = 1 }

abbrev event : MarketEvent
event = record {
  tick = record {
    has_timezone = true;
    event_time = pos 5000000;
    trading_day = 739000;
    bid_price_1 = some bid;
    bid_volume_1 = pos 7;
    ask_price_1 = none;
    ask_volume_1 = pos 0;
    last_price = some bid;
    source = "CTP";
    source_event_id = "5f0";
  };
  stream_message_id = none;
}

abbrev sale : OrderCreateRequest
sale = record { order_type = market; direction = sell; limit_price = none }

-- 3501.4 * 0.98 is 3431.372, and the tick below is 3431.2.
abbrev sold_at : ResolvedOrderPrice
sold_at = record {
  resolved_price = record { coefficient = pos 34312; places = 1 };
  submitted_limit_price = none;
  market_protection_price = some (record { coefficient = pos 34312; places = 1 });
  snapshot = some event;
}

market_sale : resolve two_percent sale fifth 739000 (pos 4500000) (some event) ≡ ok sold_at
unfolding resolve ◌+ℤ◌ ◌-ℤ◌ ◌*ℤ◌ minus
market_sale = refl

rate_accepted : check_slippage_rate two_percent ≡ ok tt
unfolding check_slippage_rate ◌*ℤ◌
rate_accepted = refl

market_protection-IsRounded_example :
    (p : Decimal) × IsRounded false (slipped two_percent sell bid) fifth p
    × (validate_price_tick p fifth ≡ ok tt)
    × (market_protection two_percent fifth sell bid
        ≡ (if is_nonpositive p then err market_protection_price_invalid else ok p))
market_protection-IsRounded_example =
    market_protection-IsRounded two_percent fifth bid sell rate_accepted (omega arith) (omega arith)

resolve-IsQuoted_example :
    (found : MarketEvent) × (some event ≡ some found)
    × IsQuoted two_percent fifth sale 739000 sold_at found
resolve-IsQuoted_example =
    resolve-IsQuoted two_percent sale fifth 739000 (pos 4500000) (some event) sold_at refl
      market_sale
