-- ===== src/Money.antt =====
-- `Decimal` values and their rounding to money: app/common/decimal_utils.py.
-- A `Decimal` is a signed coefficient and a number of decimal places. An amount of money (a
-- NUMERIC(24, 6) column, or a result of `quantize_money`) is an integer count of 0.000001.
pub mod Rounding
pub mod Proportion
mod Tests
use sim_trade.Prelude.{ℕ, suc, ◌+◌, ◌*◌, ◌/◌, ◌^◌, Bool}
use sim_trade.Prelude.Int.{ℤ, pos, negsuc, ◌+ℤ◌, ◌-ℤ◌, ◌*ℤ◌, pos_part, ltb_ℤ, leb_ℤ, eqb_ℤ}

-- `coefficient / 10 ^ places`
pub record Decimal : Type 0 where
  pub coefficient : ℤ
  pub places : ℕ

abbrev pub Money : Type 0
Money = ℤ

-- `Decimal(n)` of an `int`
abbrev pub of_int : ℤ → Decimal
of_int n = record { coefficient = n; places = 0 }

-- The `Decimal` that an amount of money is.
abbrev pub of_money : Money → Decimal
of_money m = record { coefficient = m; places = 6 }

-- `a * b`
abbrev pub times : Decimal → Decimal → Decimal
times a b = record { coefficient = a.coefficient *ℤ b.coefficient; places = a.places + b.places }

-- `n / d` to the nearest integer, a tie upwards.
unfoldable pub round_half_up : ℕ → ℕ → ℕ
round_half_up n d = (2 * n + d) / (2 * d)

-- ROUND_HALF_UP of `decimal` takes a tie away from zero.
unfoldable pub quantize_ratio : ℤ → ℕ → ℤ
quantize_ratio (pos n) d = pos (round_half_up n d)
quantize_ratio (negsuc n) d = pos 0 -ℤ pos (round_half_up (suc n) d)

unfoldable pub quantize_money : Decimal → Money
quantize_money v = quantize_ratio (v.coefficient *ℤ pos 1000000) (10 ^ v.places)

-- `quantize_money(amount * part / whole)` for a positive whole
unfoldable pub proportion : Money → ℤ → ℤ → Money
proportion amount part whole = quantize_ratio (amount *ℤ part) (pos_part whole)

-- `quantize_money(n / d)` for a divisor that is not zero
unfoldable pub divide : ℤ → ℤ → Money
divide n (pos d) = quantize_ratio n d
divide n (negsuc d) = quantize_ratio (pos 0 -ℤ n) (suc d)

-- `a - b`, on a common number of places.
unfoldable pub minus : Decimal → Decimal → Decimal
minus a b = record {
  coefficient = a.coefficient *ℤ pos (10 ^ b.places) -ℤ b.coefficient *ℤ pos (10 ^ a.places);
  places = a.places + b.places;
}

-- `a + b`, on a common number of places.
unfoldable pub plus : Decimal → Decimal → Decimal
plus a b = record {
  coefficient = a.coefficient *ℤ pos (10 ^ b.places) +ℤ b.coefficient *ℤ pos (10 ^ a.places);
  places = a.places + b.places;
}

-- `a < b` and `a == b`, by value
abbrev pub lt_decimal : Decimal → Decimal → Bool
lt_decimal a b = ltb_ℤ (a.coefficient *ℤ pos (10 ^ b.places)) (b.coefficient *ℤ pos (10 ^ a.places))

abbrev pub same_decimal : Decimal → Decimal → Bool
same_decimal a b =
    eqb_ℤ (a.coefficient *ℤ pos (10 ^ b.places)) (b.coefficient *ℤ pos (10 ^ a.places))

-- `a <= 0`
abbrev pub is_nonpositive : Decimal → Bool
is_nonpositive a = leb_ℤ a.coefficient (pos 0)
