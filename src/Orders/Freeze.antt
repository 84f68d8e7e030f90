-- ===== src/Orders/Freeze.antt =====
-- `OrderFreezeService`, app/services/order_freeze_service.py. Every amount that reaches it, a column
-- or an argument, is taken to be an amount of money already, so `quantize_money` of a sum or a difference of
-- such is the sum or the difference. An argument with more than six places, which some operations round
-- before their tests and others after them, is not modelled. The account has all its columns (`hasattr` is
-- true).
pub mod Guards
pub mod Outcome
pub mod Laws
mod Tests
use sim_trade.Prelude.{Bool, true, false, not, ◌&&◌, ◌||◌, Option, none, some, if◌then◌else◌}
use sim_trade.Prelude.Int.{ℤ, pos, ◌+ℤ◌, ◌-ℤ◌, ltb_ℤ, eqb_ℤ, min_ℤ}
use sim_trade.Errors.{
  Result, err, account_not_found, account_not_tradable, invalid_frozen_margin,
  invalid_frozen_commission, insufficient_available_cash, insufficient_risk_available_cash,
  invalid_option_frozen_resource, invalid_stock_frozen_resource, invalid_stock_release_resource,
  stock_cancel_frozen_resource_inconsistent, invalid_released_margin, invalid_released_commission,
  invalid_released_cash, cancel_frozen_resource_inconsistent,
}
use sim_trade.Enums
use sim_trade.Enums.{AccountStatus}
use sim_trade.Risk.State.{RiskState, normal}
use sim_trade.Money.{Money}
use sim_trade.Orders.Account.{Account, Action, ◌>>=◌, ◌>>◌, raise_if, gets, modify}

-- `if account is None: raise`, around a call that works on the account.
pub with_account : {A : Type 0} → Action A → Option Account → Result A × Option Account
with_account m none = (err account_not_found, none)
with_account m (some a) = let (r, a') = m a in (r, some a')

abbrev pub is_negative : Money → Bool
is_negative m = ltb_ℤ m (pos 0)

abbrev is_zero : Money → Bool
is_zero m = eqb_ℤ m (pos 0)

abbrev pub is_tradable : Option AccountStatus → Bool
is_tradable (some Enums.normal) = true
is_tradable _ = false

abbrev pub is_normal : RiskState → Bool
is_normal normal = true
is_normal _ = false

unfoldable pub validate_account_tradable : Action (Unit {0})
validate_account_tradable a = raise_if (not (is_tradable a.status)) account_not_tradable a

-- An account of futures alone whose risk column still holds the server's default.
pub has_default_risk_cash : Account → Bool
has_default_risk_cash a =
    is_zero a.risk_available_cash
    && (ltb_ℤ (pos 0) a.available_cash
        && (is_normal a.risk_state
            && (is_zero a.option_used_margin
                && (is_zero a.option_realtime_required_margin
                    && (is_zero a.long_option_market_value
                        && is_zero a.short_option_market_value)))))

pub repair_risk_cash : Account → Account
unfolding has_default_risk_cash
repair_risk_cash a =
    if has_default_risk_cash a then record a { risk_available_cash = a.available_cash } else a

abbrev pub freeze_open : Money → Money → Account → Account
freeze_open margin commission a = record a {
  available_cash = a.available_cash -ℤ (margin +ℤ commission);
  risk_available_cash = a.risk_available_cash -ℤ (margin +ℤ commission);
  frozen_margin = a.frozen_margin +ℤ margin;
  frozen_commission = a.frozen_commission +ℤ commission;
}

pub freeze_open_order : Money → Money → Action (Unit {0})
unfolding validate_account_tradable
freeze_open_order margin commission = do
  validate_account_tradable
  raise_if (is_negative margin) invalid_frozen_margin
  raise_if (is_negative commission) invalid_frozen_commission
  modify repair_risk_cash
  available_cash ← gets (λ a. a.available_cash)
  risk_available_cash ← gets (λ a. a.risk_available_cash)
  raise_if (ltb_ℤ available_cash (margin +ℤ commission)) insufficient_available_cash
  raise_if (ltb_ℤ risk_available_cash (margin +ℤ commission)) insufficient_risk_available_cash
  modify (freeze_open margin commission)

abbrev pub freeze_option : Money → Money → Money → Account → Account
freeze_option cash margin commission a = record a {
  available_cash = a.available_cash -ℤ (cash +ℤ margin +ℤ commission);
  risk_available_cash = a.risk_available_cash -ℤ (cash +ℤ margin +ℤ commission);
  frozen_cash = a.frozen_cash +ℤ cash;
  frozen_margin = a.frozen_margin +ℤ margin;
  frozen_commission = a.frozen_commission +ℤ commission;
}

pub freeze_option_resources : Money → Money → Money → Action (Unit {0})
unfolding validate_account_tradable
freeze_option_resources cash margin commission = do
  validate_account_tradable
  raise_if (is_negative cash || (is_negative margin || is_negative commission))
      invalid_option_frozen_resource
  spendable ← gets (λ a. min_ℤ a.available_cash a.risk_available_cash)
  raise_if (ltb_ℤ spendable (cash +ℤ margin +ℤ commission)) insufficient_risk_available_cash
  modify (freeze_option cash margin commission)

abbrev pub freeze_stock : Money → Money → Account → Account
freeze_stock cash commission a = record a {
  available_cash = a.available_cash -ℤ (cash +ℤ commission);
  frozen_cash = a.frozen_cash +ℤ cash;
  frozen_commission = a.frozen_commission +ℤ commission;
}

unfoldable pub freeze_stock_buy : Money → Money → Action (Unit {0})
unfolding validate_account_tradable
freeze_stock_buy cash commission = do
  validate_account_tradable
  raise_if (is_negative cash || is_negative commission) invalid_stock_frozen_resource
  available_cash ← gets (λ a. a.available_cash)
  raise_if (ltb_ℤ available_cash (cash +ℤ commission)) insufficient_available_cash
  modify (freeze_stock cash commission)

abbrev pub release_stock : Money → Money → Account → Account
release_stock cash commission a = record a {
  available_cash = a.available_cash +ℤ cash +ℤ commission;
  frozen_cash = a.frozen_cash -ℤ cash;
  frozen_commission = a.frozen_commission -ℤ commission;
}

unfoldable pub release_stock_buy : Money → Money → Action (Unit {0})
release_stock_buy cash commission = do
  raise_if (is_negative cash || is_negative commission) invalid_stock_release_resource
  frozen_cash ← gets (λ a. a.frozen_cash)
  frozen_commission ← gets (λ a. a.frozen_commission)
  raise_if (ltb_ℤ frozen_cash cash || ltb_ℤ frozen_commission commission)
      stock_cancel_frozen_resource_inconsistent
  modify (release_stock cash commission)

abbrev pub freeze_commission : Money → Account → Account
freeze_commission commission a = record a {
  available_cash = a.available_cash -ℤ commission;
  risk_available_cash = a.risk_available_cash -ℤ commission;
  frozen_commission = a.frozen_commission +ℤ commission;
}

pub freeze_close_order_commission : Money → Action (Unit {0})
unfolding validate_account_tradable
freeze_close_order_commission commission = do
  validate_account_tradable
  raise_if (is_negative commission) invalid_frozen_commission
  available_cash ← gets (λ a. a.available_cash)
  raise_if (ltb_ℤ available_cash commission) insufficient_available_cash
  modify (freeze_commission commission)

abbrev pub release : Money → Money → Money → Account → Account
release margin commission cash a = record a {
  available_cash = a.available_cash +ℤ (margin +ℤ commission +ℤ cash);
  frozen_margin = a.frozen_margin -ℤ margin;
  frozen_commission = a.frozen_commission -ℤ commission;
  frozen_cash = a.frozen_cash -ℤ cash;
  risk_available_cash = a.risk_available_cash +ℤ (margin +ℤ commission +ℤ cash);
}

unfoldable pub release_open_order_frozen_resources : Money → Money → Money → Action (Unit {0})
release_open_order_frozen_resources margin commission cash = do
  raise_if (is_negative margin) invalid_released_margin
  raise_if (is_negative commission) invalid_released_commission
  raise_if (is_negative cash) invalid_released_cash
  frozen_margin ← gets (λ a. a.frozen_margin)
  raise_if (ltb_ℤ frozen_margin margin) cancel_frozen_resource_inconsistent
  frozen_commission ← gets (λ a. a.frozen_commission)
  raise_if (ltb_ℤ frozen_commission commission) cancel_frozen_resource_inconsistent
  frozen_cash ← gets (λ a. a.frozen_cash)
  raise_if (ltb_ℤ frozen_cash cash) cancel_frozen_resource_inconsistent
  modify (release margin commission cash)

unfoldable pub release_close_order_commission : Money → Money → Action (Unit {0})
unfolding release_open_order_frozen_resources
release_close_order_commission commission cash =
    release_open_order_frozen_resources (pos 0) commission cash
