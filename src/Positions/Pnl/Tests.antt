-- ===== src/Positions/Pnl/Tests.antt =====
-- A short position of 2 lots of 10, opened at 105, settled at 103 and closed at 100.5.
use sim_trade.Prelude.{◌≡◌, refl, true, some, [], ◌∷◌}
use sim_trade.Prelude.Int.{pos, ◌+ℤ◌, ◌-ℤ◌, ◌*ℤ◌}
use sim_trade.Errors.{ok}
use sim_trade.Enums.{short}
use sim_trade.Money.{Decimal, of_int, minus, plus, quantize_money, quantize_ratio, round_half_up}
use sim_trade.Positions.Pnl.{
  calculate, ClosePnlResult, calculate_close, PnlDetailSnapshot, PositionPnlResult,
  calculate_position,
}
use sim_trade.Positions.Pnl.Agreement.{closing_order, calculate_close-calculate}
use sim_trade.Positions.Pnl.Position.{calculate_position-calculate_close}

abbrev close_price : Decimal
close_price = record { coefficient = pos 1005; places = 1 }

abbrev short_result : ClosePnlResult
short_result = record { realized_pnl = pos 90000000; daily_close_pnl = pos 50000000 }

short_closed :
    calculate_close
      (some short)
      close_price
      (of_int (pos 105))
      (of_int (pos 103))
      (pos 2)
      (of_int (pos 10))
    ≡ ok short_result
unfolding calculate_close minus quantize_money quantize_ratio round_half_up ◌-ℤ◌ ◌*ℤ◌
short_closed = refl

calculate_close-calculate_example :
    (calculate (some (closing_order short)) (of_int (pos 105)) close_price (pos 2) (of_int (pos 10))
      ≡ ok (pos 90000000))
    × (calculate
          (some (closing_order short))
          (of_int (pos 103))
          close_price
          (pos 2)
          (of_int (pos 10))
        ≡ ok (pos 50000000))
calculate_close-calculate_example =
    calculate_close-calculate short close_price (of_int (pos 105)) (of_int (pos 103)) (pos 2)
      (of_int (pos 10)) short_result short_closed

abbrev detail : PnlDetailSnapshot
detail = record {
  open_price = of_int (pos 105);
  pnl_base_price = of_int (pos 103);
  remaining_volume = pos 2;
}

abbrev short_unrealized : PositionPnlResult
short_unrealized = record {
  cumulative_unrealized_pnl = pos 90000000;
  daily_position_pnl = pos 50000000;
  cash_unrealized_pnl = pos 50000000;
}

short_marked :
    calculate_position close_price (record {
      direction = some short;
      contract_multiplier = of_int (pos 10);
      details = detail ∷ [];
      uses_settlement_basis = true;
    })
    ≡ ok short_unrealized
unfolding calculate_position minus plus quantize_money quantize_ratio round_half_up ◌+ℤ◌ ◌-ℤ◌ ◌*ℤ◌
short_marked = refl

calculate_position-calculate_close_example :
    (pos 90000000 ≡ pos 90000000) × (pos 50000000 ≡ pos 50000000)
calculate_position-calculate_close_example =
    calculate_position-calculate_close close_price short (of_int (pos 10)) detail true
      short_unrealized short_result short_marked short_closed
