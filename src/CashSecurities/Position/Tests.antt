-- ===== src/CashSecurities/Position/Tests.antt =====
-- Runs of the purchases and sales, and the theorems at them.
use sim_trade.Prelude.{◌≡◌, refl, inr, true, some, none, [], ◌∷◌, arith}
use sim_trade.Prelude.Int.{pos, ◌+ℤ◌, ◌-ℤ◌, ◌*ℤ◌}
use sim_trade.Errors.{ok, err, Returns, stock_t_plus_one_violation}
use sim_trade.Enums.{stock}
use sim_trade.Money.{divide, quantize_ratio, round_half_up}
use sim_trade.CashSecurities.Position.{CashPosition, apply_buy, apply_sell, settlement_days}
use sim_trade.CashSecurities.Position.Laws.{IsBalanced}
use sim_trade.CashSecurities.Position.Trades.{
  buy, sell, trade_all, trade_all_lem, apply_sell-Returns,
}

-- 300 shares of yesterday for 30.000000 and 100 of today for 11.000000; 150 are frozen for sales.
abbrev held : CashPosition
held = record {
  total_volume = pos 400;
  today_volume = pos 100;
  yesterday_volume = pos 300;
  frozen_volume = pos 150;
  settlement_locked_volume = pos 100;
  available_volume = pos 150;
  position_cost = pos 41000000;
  today_pnl_base_cost = pos 11000000;
  yesterday_pnl_base_cost = pos 33000000;
  daily_pnl_base_cost = pos 44000000;
  daily_pnl_base_established = true;
  average_open_price = pos 102500;
}

held-IsBalanced : IsBalanced held
unfolding ◌+ℤ◌ ◌-ℤ◌
held-IsBalanced = record {
  total_is = refl;
  available_is = refl;
  today = omega arith;
  yesterday = omega arith;
  frozen = omega arith;
  locked = omega arith;
  available = omega arith;
  cost = omega arith;
  today_base = omega arith;
  bases = inr refl;
}

-- After the sale of 100 of the shares, and the purchase of another 200 for 21.
abbrev after_sale : CashPosition
after_sale = record held {
  total_volume = pos 300;
  yesterday_volume = pos 200;
  frozen_volume = pos 50;
  position_cost = pos 30750000;
  yesterday_pnl_base_cost = pos 22000000;
  daily_pnl_base_cost = pos 33000000;
}

abbrev after_purchase : CashPosition
after_purchase = record after_sale {
  total_volume = pos 500;
  today_volume = pos 300;
  settlement_locked_volume = pos 300;
  position_cost = pos 51750000;
  today_pnl_base_cost = pos 32000000;
  daily_pnl_base_cost = pos 54000000;
  average_open_price = pos 103500;
}

sale_of_100 : apply_sell held (some stock) (pos 100) none ≡ ok (after_sale, pos 10250000)
unfolding apply_sell ◌-ℤ◌ divide ◌+ℤ◌ quantize_ratio ◌*ℤ◌ round_half_up
sale_of_100 = refl

sale_of_today :
    apply_sell (record held { frozen_volume = pos 350 }) (some stock) (pos 350) none
    ≡ err stock_t_plus_one_violation
unfolding apply_sell
sale_of_today = refl

trades_of_a_day :
    trade_all (some stock) none (sell (pos 100) ∷ buy (pos 200) (pos 21000000) ∷ []) held
    ≡ ok (after_purchase, pos 10250000)
unfolding apply_sell apply_buy ◌-ℤ◌ divide ◌+ℤ◌ quantize_ratio ◌*ℤ◌ round_half_up
trades_of_a_day = refl

trade_all_lem_example :
    IsBalanced after_purchase
    × (pos 51750000 +ℤ pos 10250000 ≡ pos 41000000 +ℤ (pos 21000000 +ℤ pos 0))
trade_all_lem_example =
    trade_all_lem (some stock) none (sell (pos 100) ∷ buy (pos 200) (pos 21000000) ∷ []) held
      after_purchase (pos 10250000) (omega arith, ((omega arith, omega arith), tt)) held-IsBalanced
      trades_of_a_day

stock_days : settlement_days (some stock) none ≡ ok 1
unfolding settlement_days
stock_days = refl

apply_sell-Returns_example : Returns (apply_sell held (some stock) (pos 150) none)
apply_sell-Returns_example =
    apply_sell-Returns held (some stock) (pos 150) none 1 held-IsBalanced (omega arith)
      (omega arith) stock_days (λ same. refl)
