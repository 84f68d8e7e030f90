-- ===== src/Fees/Snapshot/Tests.antt =====
-- A fee of 0.0000125 of the amount, for 3 lots of 10 at 4123.5.
use sim_trade.Prelude.{◌≡◌, ◌*◌, ◌^◌, refl, some}
use sim_trade.Prelude.Int.{pos, pos_part, neg_part, ◌-ℤ◌, ◌*ℤ◌}
use sim_trade.Errors.{ok}
use sim_trade.Enums.{by_amount, close_today}
use sim_trade.Money.{Decimal, of_int, quantize_money, quantize_ratio, round_half_up}
use sim_trade.Money.Rounding.{IsNearest}
use sim_trade.Fees.Snapshot.{calculate, calculate_from_snapshot}
use sim_trade.Fees.Snapshot.Laws.{calculate_from_snapshot-IsNearest}

abbrev price : Decimal
price = record { coefficient = pos 41235; places = 1 }

abbrev rate : Decimal
rate = record { coefficient = pos 125; places = 7 }

-- 1.5463125 is a tie, and goes up.
rate_fee :
    calculate_from_snapshot price (pos 3) (some by_amount) rate (of_int (pos 10)) ≡ ok (pos 1546313)
unfolding calculate_from_snapshot quantize_money quantize_ratio round_half_up ◌*ℤ◌ ◌-ℤ◌
rate_fee = refl

close_today_fee :
    calculate price (pos 3) (some close_today) (of_int (pos 10)) (record {
      commission_type = some by_amount;
      open_commission = of_int (pos 0);
      close_commission = of_int (pos 0);
      close_today_commission = rate;
    })
    ≡ ok (pos 1546313)
unfolding calculate quantize_money quantize_ratio round_half_up ◌*ℤ◌ ◌-ℤ◌
close_today_fee = refl

calculate_from_snapshot-IsNearest_example :
    (neg_part (pos 1546313) ≡ 0)
    × IsNearest (41235 * 3 * 10 * 125 * 1000000) (10 ^ 8) (pos_part (pos 1546313))
calculate_from_snapshot-IsNearest_example =
    calculate_from_snapshot-IsNearest price (pos 3) rate (of_int (pos 10)) (pos 1546313) rate_fee
