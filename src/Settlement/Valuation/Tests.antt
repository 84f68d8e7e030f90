-- ===== src/Settlement/Valuation/Tests.antt =====
-- The valuation of an account with a future and a short option.
use sim_trade.Prelude.{◌≡◌, refl}
use sim_trade.Prelude.Int.{pos, negsuc, ◌+ℤ◌, ◌-ℤ◌, ◌*ℤ◌}
use sim_trade.Money.{of_int, plus, quantize_money, quantize_ratio, round_half_up}
use sim_trade.Settlement.Valuation.{AccountValuation, effective_margin, valuation_of}

abbrev valued : AccountValuation
valued = record {
  cash_balance = pos 1000;
  futures_unrealized_pnl = pos 50;
  long_option_market_value = pos 0;
  short_option_market_value = pos 40;
  used_margin = pos 300;
  option_used_margin = pos 100;
  option_realtime_required_margin = pos 130;
  frozen_margin = pos 10;
  frozen_cash = pos 0;
  frozen_commission = pos 5;
}

valuation_of-valued : valuation_of (of_int (pos 0)) valued ≡ record {
  equity = pos 1010;
  available_cash = pos 695;
  effective_required_margin = pos 330;
  risk_available_cash = pos 665;
  net_option_market_value = negsuc 39;
}
unfolding valuation_of effective_margin ◌+ℤ◌ ◌-ℤ◌ ◌*ℤ◌ plus quantize_money quantize_ratio
    round_half_up
valuation_of-valued = refl
