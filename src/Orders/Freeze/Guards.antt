-- ===== src/Orders/Freeze/Guards.antt =====
-- How each operation of the freeze service ends: what it required where it went through, and that it
-- left the account alone where it raised.
use sim_trade.Prelude.{refl, ◌≡◌, ◌≢◌, ◌⊎◌, true, arith}
use sim_trade.Prelude.Int.{pos, ◌+ℤ◌, ◌≤ℤ◌}
use sim_trade.Errors.{ok}
use sim_trade.Money.{Money}
use sim_trade.Orders.Account.{Account}
use sim_trade.Orders.Freeze.{
  is_tradable, repair_risk_cash, freeze_open, freeze_open_order, freeze_option,
  freeze_option_resources, freeze_stock, freeze_stock_buy, release_stock, release_stock_buy,
  freeze_commission, freeze_close_order_commission, release, release_open_order_frozen_resources,
  release_close_order_commission,
}

pub freeze_open_order-cases :
    (margin commission : Money) (a : Account)
    → (((freeze_open_order margin commission a).0 ≢ ok tt)
        × (((freeze_open_order margin commission a).1 ≡ a)
            ⊎ ((freeze_open_order margin commission a).1 ≡ repair_risk_cash a)))
      ⊎ ((is_tradable a.status ≡ true)
          × (pos 0 ≤ℤ margin)
          × (pos 0 ≤ℤ commission)
          × (margin +ℤ commission ≤ℤ (repair_risk_cash a).available_cash)
          × (margin +ℤ commission ≤ℤ (repair_risk_cash a).risk_available_cash)
          × (freeze_open_order margin commission a
              ≡ (ok tt, freeze_open margin commission (repair_risk_cash a))))
unfolding freeze_open_order
freeze_open_order-cases margin commission a = ground arith

pub freeze_option_resources-cases :
    (cash margin commission : Money) (a : Account)
    → (((freeze_option_resources cash margin commission a).0 ≢ ok tt)
        × ((freeze_option_resources cash margin commission a).1 ≡ a))
      ⊎ ((is_tradable a.status ≡ true)
          × (pos 0 ≤ℤ cash)
          × (pos 0 ≤ℤ margin)
          × (pos 0 ≤ℤ commission)
          × (cash +ℤ margin +ℤ commission ≤ℤ a.available_cash)
          × (cash +ℤ margin +ℤ commission ≤ℤ a.risk_available_cash)
          × (freeze_option_resources cash margin commission a
              ≡ (ok tt, freeze_option cash margin commission a)))
unfolding freeze_option_resources
freeze_option_resources-cases cash margin commission a = ground arith

pub freeze_stock_buy-cases :
    (cash commission : Money) (a : Account)
    → (((freeze_stock_buy cash commission a).0 ≢ ok tt)
        × ((freeze_stock_buy cash commission a).1 ≡ a))
      ⊎ ((is_tradable a.status ≡ true)
          × (pos 0 ≤ℤ cash)
          × (pos 0 ≤ℤ commission)
          × (cash +ℤ commission ≤ℤ a.available_cash)
          × (freeze_stock_buy cash commission a ≡ (ok tt, freeze_stock cash commission a)))
unfolding freeze_stock_buy
freeze_stock_buy-cases cash commission a = ground arith

pub release_stock_buy-cases :
    (cash commission : Money) (a : Account)
    → (((release_stock_buy cash commission a).0 ≢ ok tt)
        × ((release_stock_buy cash commission a).1 ≡ a))
      ⊎ ((pos 0 ≤ℤ cash)
          × (pos 0 ≤ℤ commission)
          × (cash ≤ℤ a.frozen_cash)
          × (commission ≤ℤ a.frozen_commission)
          × (release_stock_buy cash commission a ≡ (ok tt, release_stock cash commission a)))
unfolding release_stock_buy
release_stock_buy-cases cash commission a = ground arith

pub freeze_close_order_commission-cases :
    (commission : Money) (a : Account)
    → (((freeze_close_order_commission commission a).0 ≢ ok tt)
        × ((freeze_close_order_commission commission a).1 ≡ a))
      ⊎ ((is_tradable a.status ≡ true)
          × (pos 0 ≤ℤ commission)
          × (commission ≤ℤ a.available_cash)
          × (freeze_close_order_commission commission a ≡ (ok tt, freeze_commission commission a)))
unfolding freeze_close_order_commission
freeze_close_order_commission-cases commission a = ground arith

pub release_open_order_frozen_resources-cases :
    (margin commission cash : Money) (a : Account)
    → (((release_open_order_frozen_resources margin commission cash a).0 ≢ ok tt)
        × ((release_open_order_frozen_resources margin commission cash a).1 ≡ a))
      ⊎ ((pos 0 ≤ℤ margin)
          × (pos 0 ≤ℤ commission)
          × (pos 0 ≤ℤ cash)
          × (margin ≤ℤ a.frozen_margin)
          × (commission ≤ℤ a.frozen_commission)
          × (cash ≤ℤ a.frozen_cash)
          × (release_open_order_frozen_resources margin commission cash a
              ≡ (ok tt, release margin commission cash a)))
unfolding release_open_order_frozen_resources
release_open_order_frozen_resources-cases margin commission cash a = ground arith

-- A closing order's funds are released as an opening order's without a margin.
pub release_close-release_open :
    (commission cash : Money) (a : Account)
    → release_close_order_commission commission cash a
      ≡ release_open_order_frozen_resources (pos 0) commission cash a
unfolding release_close_order_commission
release_close-release_open commission cash a = refl
