-- ===== src/Money/Tests.antt =====
-- Tests of the rounding.
use sim_trade.Prelude.{◌≡◌, refl}
use sim_trade.Prelude.Int.{pos, negsuc, ◌*ℤ◌, ◌-ℤ◌}
use sim_trade.Money.{Decimal, round_half_up, quantize_ratio, quantize_money}

-- The example of the source: 1.2345678 becomes 1.234568.
quantize-docstring :
    quantize_money (record { coefficient = pos 12345678; places = 7 }) ≡ pos 1234568
unfolding quantize_money quantize_ratio round_half_up ◌*ℤ◌
quantize-docstring = refl

-- -0.0000005 is a tie, which goes away from zero.
abbrev tie : Decimal
tie = record { coefficient = negsuc 4; places = 7 }

quantize-tie : quantize_money tie ≡ negsuc 0
unfolding quantize_money quantize_ratio round_half_up ◌*ℤ◌ ◌-ℤ◌
quantize-tie = refl
