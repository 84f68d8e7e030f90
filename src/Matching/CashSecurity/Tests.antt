-- ===== src/Matching/CashSecurity/Tests.antt =====
-- A sell order of 200 shares at 9.9 meets a bid of 100 at 10.
use sim_trade.Prelude.{◌≡◌, refl, true, some}
use sim_trade.Prelude.Int.{pos, ◌*ℤ◌}
use sim_trade.Enums.{sell, stock, close_flag, limit}
use sim_trade.Money.{of_int}
use sim_trade.Matching.Vn.{match_order}
use sim_trade.Matching.CashSecurity.{
  CashSecurityOrderSnapshot, CashSecurityMarketSnapshot, is_cash_security, match_cash,
}
use sim_trade.Matching.CashSecurity.Agreement.{cash_view, as_matching_order, match_cash-agrees}

abbrev sell_shares : CashSecurityOrderSnapshot
sell_shares = record {
  instrument_type = some stock;
  direction = some sell;
  limit_price = record { coefficient = pos 99; places = 1 };
  remaining_volume = pos 200;
}

abbrev bids : CashSecurityMarketSnapshot
bids = record {
  bid_price_1 = some (of_int (pos 10));
  bid_volume_1 = pos 100;
  ask_price_1 = some (of_int (pos 11));
  ask_volume_1 = pos 100;
}

sell_shares_filled : (match_cash sell_shares bids).fill_volume ≡ pos 100
unfolding match_cash ◌*ℤ◌
sell_shares_filled = refl

is_stock : is_cash_security (some stock) ≡ true
unfolding is_cash_security
is_stock = refl

match_cash-agrees_example :
    match_cash sell_shares bids
    ≡ cash_view (match_order (as_matching_order close_flag limit sell_shares) bids)
match_cash-agrees_example = match_cash-agrees close_flag limit sell_shares bids is_stock
