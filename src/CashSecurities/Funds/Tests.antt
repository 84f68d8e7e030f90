-- ===== src/CashSecurities/Funds/Tests.antt =====
-- A purchase for 0.3000004 with a fee of 0.000002, frozen and released.
use sim_trade.Prelude.{◌≡◌, refl, some, arith}
use sim_trade.Prelude.Int.{pos, ◌+ℤ◌, ◌*ℤ◌}
use sim_trade.Errors.{ok}
use sim_trade.Money.{Decimal, quantize_money, quantize_ratio, round_half_up}
use sim_trade.Enums
use sim_trade.Risk.State.{normal}
use sim_trade.Orders.Account.{Account, ◌>>◌}
use sim_trade.CashSecurities.Funds.{freeze_buy, release_buy}
use sim_trade.CashSecurities.Funds.Laws.{release_buy-freeze_buy}

abbrev saver : Account
saver = record {
  status = some Enums.normal;
  risk_state = normal;
  available_cash = pos 1000000;
  risk_available_cash = pos 1000;
  frozen_cash = pos 5;
  frozen_margin = pos 0;
  frozen_commission = pos 1;
  option_used_margin = pos 0;
  option_realtime_required_margin = pos 0;
  long_option_market_value = pos 0;
  short_option_market_value = pos 0;
}

abbrev price : Decimal
price = record { coefficient = pos 3000004; places = 7 }

abbrev fee : Decimal
fee = record { coefficient = pos 2; places = 6 }

saver-frozen : (freeze_buy price fee saver).0 ≡ ok tt
unfolding freeze_buy ◌+ℤ◌ ◌*ℤ◌ quantize_money quantize_ratio round_half_up
saver-frozen = refl

release_buy-freeze_buy_example :
    (freeze_buy price fee >> release_buy price fee) saver ≡ (ok tt, saver)
release_buy-freeze_buy_example =
    release_buy-freeze_buy price fee saver (omega arith) (omega arith) saver-frozen
