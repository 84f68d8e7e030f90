-- ===== src/CashSecurities/Funds.antt =====
-- `CashSecurityFundsService`, app/services/cash_security_funds_service.py: what an order for a cash security
-- freezes of an account, and what is released. The columns of the account are amounts of money, so a sum
-- or a difference of them and of rounded amounts needs no rounding again.
pub mod Laws
mod Tests
use sim_trade.Prelude.{Bool, not, ◌||◌}
use sim_trade.Prelude.Int.{pos, ◌+ℤ◌, ◌-ℤ◌, ltb_ℤ}
use sim_trade.Errors.{
  account_not_tradable, invalid_cash_security_frozen_resource, insufficient_available_cash,
  invalid_cash_security_release_resource, cash_security_cancel_frozen_resource_inconsistent,
}
use sim_trade.Money.{Money, Decimal, quantize_money}
use sim_trade.Orders.Account.{Account, Action, ◌>>=◌, ◌>>◌, raise_if, gets, modify}
use sim_trade.Orders.Freeze.{is_tradable, is_negative}

abbrev pub frozen_buy : Money → Money → Account → Account
frozen_buy cash commission a = record a {
  available_cash = a.available_cash -ℤ (cash +ℤ commission);
  frozen_cash = a.frozen_cash +ℤ cash;
  frozen_commission = a.frozen_commission +ℤ commission;
}

-- The freeze of amounts that are rounded.
freeze_rounded : Money → Money → Action (Unit {0})
freeze_rounded cash commission = do
  status ← gets (λ a. a.status)
  raise_if (not (is_tradable status)) account_not_tradable
  raise_if (is_negative cash || is_negative commission) invalid_cash_security_frozen_resource
  available_cash ← gets (λ a. a.available_cash)
  raise_if (ltb_ℤ available_cash (cash +ℤ commission)) insufficient_available_cash
  modify (frozen_buy cash commission)

pub freeze_buy : Decimal → Decimal → Action (Unit {0})
unfolding freeze_rounded
freeze_buy frozen_cash frozen_commission =
    freeze_rounded (quantize_money frozen_cash) (quantize_money frozen_commission)

abbrev pub released_buy : Money → Money → Account → Account
released_buy cash commission a = record a {
  available_cash = a.available_cash +ℤ cash +ℤ commission;
  frozen_cash = a.frozen_cash -ℤ cash;
  frozen_commission = a.frozen_commission -ℤ commission;
}

release_rounded : Money → Money → Action (Unit {0})
release_rounded cash commission = do
  raise_if (is_negative cash || is_negative commission) invalid_cash_security_release_resource
  frozen_cash ← gets (λ a. a.frozen_cash)
  frozen_commission ← gets (λ a. a.frozen_commission)
  raise_if (ltb_ℤ frozen_cash cash || ltb_ℤ frozen_commission commission)
      cash_security_cancel_frozen_resource_inconsistent
  modify (released_buy cash commission)

pub release_buy : Decimal → Decimal → Action (Unit {0})
unfolding release_rounded
release_buy frozen_cash frozen_commission =
    release_rounded (quantize_money frozen_cash) (quantize_money frozen_commission)
