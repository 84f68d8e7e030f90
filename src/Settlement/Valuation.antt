-- ===== src/Settlement/Valuation.antt =====
-- `AccountValuationCalculator.calculate`, app/services/account_valuation_calculator.py.
pub mod Laws
mod Tests
use sim_trade.Prelude.Int.{ℤ, pos, ◌+ℤ◌, ◌-ℤ◌, max_ℤ}
use sim_trade.Money.{Decimal, Money, of_money, times, plus, quantize_money}

pub record AccountValuation : Type 0 where
  pub cash_balance : Money
  pub futures_unrealized_pnl : Money
  pub long_option_market_value : Money
  pub short_option_market_value : Money
  pub used_margin : Money
  pub option_used_margin : Money
  pub option_realtime_required_margin : Money
  pub frozen_margin : Money
  pub frozen_cash : Money
  pub frozen_commission : Money

pub record AccountValuationResult : Type 0 where
  pub equity : Money
  pub available_cash : Money
  pub effective_required_margin : Money
  pub risk_available_cash : Money
  pub net_option_market_value : Money

-- What the accepted part of the long options is worth.
abbrev pub collateral_of : Decimal → AccountValuation → Decimal
collateral_of ratio v = times (of_money v.long_option_market_value) ratio

-- The amount that is free where so much margin is required, but for the collateral.
abbrev pub free_after : Money → AccountValuation → Money
free_after margin v =
    v.cash_balance +ℤ v.futures_unrealized_pnl -ℤ v.short_option_market_value -ℤ margin
    -ℤ v.frozen_margin -ℤ v.frozen_cash -ℤ v.frozen_commission

unfoldable pub effective_margin : AccountValuation → Money
effective_margin v =
    max_ℤ (v.used_margin -ℤ v.option_used_margin) (pos 0)
    +ℤ max_ℤ v.option_used_margin v.option_realtime_required_margin

unfoldable pub valuation_of : Decimal → AccountValuation → AccountValuationResult
unfolding effective_margin
valuation_of ratio v =
    let net = v.long_option_market_value -ℤ v.short_option_market_value in
    record {
      equity = v.cash_balance +ℤ v.futures_unrealized_pnl +ℤ net;
      available_cash =
          quantize_money (plus (of_money (free_after v.used_margin v)) (collateral_of ratio v));
      effective_required_margin = effective_margin v;
      risk_available_cash =
          quantize_money
            (plus (of_money (free_after (effective_margin v) v)) (collateral_of ratio v));
      net_option_market_value = net;
    }
