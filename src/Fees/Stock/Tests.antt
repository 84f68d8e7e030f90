-- ===== src/Fees/Stock/Tests.antt =====
-- A stock fee of a brokerage with a minimum and a stamp duty.
use sim_trade.Prelude.{◌≡◌, ◌↔◌, refl, some, List, [], ◌∷◌}
use sim_trade.Prelude.Int.{pos, ◌+ℤ◌, ◌-ℤ◌, ◌*ℤ◌}
use sim_trade.Errors.{ok}
use sim_trade.Enums.{by_amount}
use sim_trade.Money.{of_int, quantize_money, quantize_ratio, round_half_up}
use sim_trade.Fees.Snapshot.{calculate_from_snapshot}
use sim_trade.Fees.Stock.{
  StockFeeComponent, seen, component_fee, with_minimum, calculate_stock_components,
}
use sim_trade.Fees.Stock.Laws.{IsDistinct, fee_types, AreCharged, calculate_stock_components_iff}

abbrev components : List StockFeeComponent
components =
    record {
      fee_type = 0;
      calculation_type = some by_amount;
      commission_parameter = record { coefficient = pos 25; places = 5 };
      minimum_fee = of_int (pos 5);
      contract_multiplier = of_int (pos 1);
    }
    ∷ record {
      fee_type = 1;
      calculation_type = some by_amount;
      commission_parameter = record { coefficient = pos 5; places = 4 };
      minimum_fee = of_int (pos 0);
      contract_multiplier = of_int (pos 1);
    }
    ∷ []

-- 100 shares at 12: the brokerage of 0.3 is raised to 5, and the duty is 0.6.
components_fee :
    calculate_stock_components (of_int (pos 12)) (pos 100) components ≡ ok (pos 5600000)
unfolding seen component_fee with_minimum calculate_stock_components calculate_from_snapshot
    quantize_money quantize_ratio round_half_up ◌*ℤ◌ ◌+ℤ◌ ◌-ℤ◌
components_fee = refl

calculate_stock_components_iff_example :
    (calculate_stock_components (of_int (pos 12)) (pos 100) components ≡ ok (pos 5600000)) ↔ (
      IsDistinct (fee_types components)
      × AreCharged (of_int (pos 12)) (pos 100) components (pos 5600000))
calculate_stock_components_iff_example =
    calculate_stock_components_iff (of_int (pos 12)) (pos 100) components (pos 5600000)
