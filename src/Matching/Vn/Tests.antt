-- ===== src/Matching/Vn/Tests.antt =====
-- A buy order of 5 at 101 meets an ask of 3 at 100.5.
use sim_trade.Prelude.{◌≡◌, ◌↔◌, ◌⊎◌, refl, true, some}
use sim_trade.Prelude.Int.{pos, ◌*ℤ◌}
use sim_trade.Enums.{OrderDirection, buy, open_flag, limit}
use sim_trade.Money.{Decimal, of_int}
use sim_trade.Matching.Types.{MatchingOrder, MatchingMarketData}
use sim_trade.Matching.Vn.{match_order}
use sim_trade.Matching.Vn.Laws.{IsTradable, IsFill, IsRefused, match_order_iff, match_order_outcome}

abbrev buy_five : MatchingOrder
buy_five = record {
  direction = some buy;
  offset_flag = open_flag;
  order_type = limit;
  limit_price = of_int (pos 101);
  remaining_volume = pos 5;
}

abbrev quotes : MatchingMarketData
quotes = record {
  bid_price_1 = some (of_int (pos 100));
  bid_volume_1 = pos 7;
  ask_price_1 = some (record { coefficient = pos 1005; places = 1 });
  ask_volume_1 = pos 3;
}

buy_five_filled : (match_order buy_five quotes).fill_volume ≡ pos 3
unfolding match_order ◌*ℤ◌
buy_five_filled = refl

match_order_outcome_example :
    IsFill buy_five quotes (match_order buy_five quotes) ⊎ IsRefused (match_order buy_five quotes)
match_order_outcome_example = match_order_outcome buy_five quotes

match_order_iff_example :
    ((match_order buy_five quotes).matched ≡ true)
    ↔ ((side : OrderDirection) × ((price : Decimal) × IsTradable buy_five quotes side price))
match_order_iff_example = match_order_iff buy_five quotes
