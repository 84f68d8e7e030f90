-- ===== src/Settlement/Funds/Tests.antt =====
-- The account and the order after a fill.
use sim_trade.Prelude.{◌≡◌, refl, false, true, some}
use sim_trade.Prelude.Int.{pos, negsuc, ◌+ℤ◌, ◌-ℤ◌, ◌*ℤ◌}
use sim_trade.Enums.{long, accepted, sell, futures, close_yesterday, limit, by_volume}
use sim_trade.Money.{of_int, plus, quantize_money, quantize_ratio, round_half_up}
use sim_trade.Risk.State.{normal}
use sim_trade.Settlement.Rows.{OrderRow}
use sim_trade.Settlement.Valuation.{valuation_of}
use sim_trade.Settlement.Funds.{AccountRow, FillTotals, settle_account}
use sim_trade.Settlement.Funds.Laws.{settle_future_valued}

abbrev pub account : AccountRow
account = record {
  valued = record {
    cash_balance = pos 500000000;
    futures_unrealized_pnl = pos 0;
    long_option_market_value = pos 0;
    short_option_market_value = pos 40000000;
    used_margin = pos 18000000;
    option_used_margin = pos 0;
    option_realtime_required_margin = pos 0;
    frozen_margin = pos 0;
    frozen_cash = pos 0;
    frozen_commission = pos 21000000;
  };
  risk_state = normal;
  available_cash = pos 421000000;
  risk_available_cash = pos 421000000;
  equity = pos 460000000;
  net_option_market_value = negsuc 39999999;
  used_commission = pos 0;
  realized_pnl = pos 0;
  daily_close_pnl = pos 0;
  daily_position_pnl = pos 0;
  daily_commission = pos 0;
  daily_pnl = pos 0;
}

-- The sums over the consumptions of the fill.
abbrev pub totals : FillTotals
totals = record {
  released_margin = pos 12000000;
  released_realtime_margin = pos 0;
  released_frozen_commission = pos 15000000;
  released_frozen_cash = pos 0;
  released_option_market_value = pos 0;
  actual_commission = pos 15000000;
  realized_pnl = pos 250000000;
  daily_close_pnl = pos 200000000;
  premium_cash_flow = pos 0;
}

settle_account-totals :
    (settle_account false (of_int (pos 0)) long totals account).equity ≡ pos 685000000
unfolding settle_account ◌+ℤ◌ ◌-ℤ◌
settle_account-totals = refl

pub no_collateral : (pos 0 *ℤ pos 0) ≡ pos 0
unfolding ◌*ℤ◌
no_collateral = refl

account_valued :
    account.available_cash ≡ (valuation_of (of_int (pos 0)) account.valued).available_cash
unfolding valuation_of ◌+ℤ◌ ◌-ℤ◌ ◌*ℤ◌ plus quantize_money quantize_ratio round_half_up
account_valued = refl

settle_future_valued_example :
    ((settle_account false (of_int (pos 0)) long totals account).available_cash
      ≡ (valuation_of
          (of_int (pos 0))
          (settle_account false (of_int (pos 0)) long totals account).valued).available_cash)
    × ((settle_account false (of_int (pos 0)) long totals account).equity
          +ℤ (valuation_of
              (of_int (pos 0))
              (settle_account false
                (of_int (pos 0))
                long
                totals
                account).valued).net_option_market_value
        ≡ (valuation_of
            (of_int (pos 0))
            (settle_account false (of_int (pos 0)) long totals account).valued).equity)
    × ((settle_account false (of_int (pos 0)) long totals account).risk_available_cash
        ≡ pos 421000000)
settle_future_valued_example =
    settle_future_valued (of_int (pos 0)) totals account long no_collateral account_valued

-- Nothing of 7 lots has been traded.
abbrev pub order : OrderRow
order = record {
  order_id = 61;
  account_id = 31;
  exchange_id = 41;
  symbol = 51;
  trading_day = 7;
  instrument_type = some futures;
  direction = some sell;
  offset_flag = some close_yesterday;
  order_type = some limit;
  limit_price = of_int (pos 105);
  commission_type = some by_volume;
  commission_parameter = of_int (pos 3);
  commission_contract_multiplier = of_int (pos 10);
  margin_rule = 0;
  margin_risk_is_normal = true;
  frozen_margin = pos 0;
  status = accepted;
  total_volume = pos 7;
  traded_volume = pos 0;
  remaining_volume = pos 7;
  cancelled_volume = pos 0;
  average_price = pos 0;
  frozen_commission = pos 21000000;
  frozen_cash = pos 0;
  frozen_position_volume = pos 7;
}
