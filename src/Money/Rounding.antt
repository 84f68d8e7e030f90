-- ===== src/Money/Rounding.antt =====
-- Laws of the rounding in `quantize_money`.
use native.Mathlib.Nat.{
  le-div_iff_mul-le, mul-div-le, div-mul-le_self, lt-mul-div-succ, div-eq_of_lt-le, one-le-pow,
  div-zero, le_trans,
}
use sim_trade.Prelude.{ℕ, zero, suc, ◌+◌, ◌*◌, ◌/◌, ◌^◌, ◌≤◌, ◌<◌, ◌≡◌, arith}
use sim_trade.Prelude.Int.{ℤ, pos, negsuc, pos_part, neg_part, ◌-ℤ◌, ◌*ℤ◌, ◌≤ℤ◌, eq_of_parts}
use sim_trade.Money.{Decimal, Money, of_money, round_half_up, quantize_ratio, quantize_money}

-- The rounded quotient is within half of the divisor of the exact one, a tie going up.
pub round_half_up_bounds :
    (n d : ℕ)
    → 0 < d
    → (2 * d * round_half_up n d ≤ 2 * n + d) × (2 * n + d < 2 * d * round_half_up n d + 2 * d)
unfolding round_half_up
round_half_up_bounds n d h =
    let below : 2 * d * ((2 * n + d) / (2 * d)) ≤ 2 * n + d = mul-div-le (2 * n + d) (2 * d) in
    let above : 2 * n + d < 2 * d * ((2 * n + d) / (2 * d) + 1) =
      lt-mul-div-succ (2 * n + d) (omega arith) in
    (below, omega arith)

pub round_half_up_unique :
    (n d q : ℕ) → 2 * d * q ≤ 2 * n + d → 2 * n + d < 2 * d * q + 2 * d → round_half_up n d ≡ q
unfolding round_half_up
round_half_up_unique n d q h k = div-eq_of_lt-le (2 * d) (omega arith) (omega arith)

pub round_half_up_mono : (m n d : ℕ) → m ≤ n → round_half_up m d ≤ round_half_up n d
unfolding round_half_up
round_half_up_mono m n zero h = omega (arith, div-zero (2 * m + 0), div-zero (2 * n + 0))
round_half_up_mono m n (suc d) h =
    (le-div_iff_mul-le (omega arith)).1
      (le_trans (div-mul-le_self (2 * m + suc d) (2 * suc d)) (omega arith))

pub round_half_up-mul : (k d : ℕ) → 0 < d → round_half_up (k * d) d ≡ k
round_half_up-mul k d h = round_half_up_unique (k * d) d k (omega arith) (omega arith)

pub round_half_up-zero : (d : ℕ) → 0 < d → round_half_up 0 d ≡ 0
round_half_up-zero d h = round_half_up_unique 0 d 0 (omega arith) (omega arith)

pub ten_pow_pos : (p : ℕ) → 0 < 10 ^ p
ten_pow_pos p = one-le-pow p 10 (omega arith)

-- The parts of a product with a number, with `◌*ℤ◌` shut.
pub *ℤ_pos_parts :
    (a : ℤ) (k : ℕ)
    → (pos_part (a *ℤ pos k) ≡ pos_part a * k) × (neg_part (a *ℤ pos k) ≡ neg_part a * k)
unfolding ◌*ℤ◌
*ℤ_pos_parts (pos n) k = ground arith
*ℤ_pos_parts (negsuc n) k = ground arith

pub quantize_ratio_parts :
    (c : ℤ) (d : ℕ)
    → 0 < d
    → (pos_part (quantize_ratio c d) ≡ round_half_up (pos_part c) d)
      × (neg_part (quantize_ratio c d) ≡ round_half_up (neg_part c) d)
unfolding quantize_ratio ◌-ℤ◌
quantize_ratio_parts (pos n) d h = ground (arith, round_half_up-mul 0 d)
quantize_ratio_parts (negsuc n) d h = ground (arith, round_half_up-mul 0 d)

-- `q` is `n / d` to the nearest integer, and a tie goes up.
abbrev pub IsNearest : ℕ → ℕ → ℕ → Type 0
IsNearest n d q = (2 * d * q ≤ 2 * n + d) × (2 * n < 2 * d * q + d)

round_half_up-IsNearest : (n d : ℕ) → 0 < d → IsNearest n d (round_half_up n d)
round_half_up-IsNearest n d h =
    let (below, above) = round_half_up_bounds n d h in (below, omega arith)

-- On both signs, `quantize_money` is the nearest count of 0.000001, and a tie goes away from zero.
pub quantize_money-IsNearest :
    (v : Decimal)
    → let q = quantize_money v in
      let d = 10 ^ v.places in
      IsNearest (pos_part v.coefficient * 1000000) d (pos_part q)
      × IsNearest (neg_part v.coefficient * 1000000) d (neg_part q)
unfolding quantize_money
quantize_money-IsNearest v =
    let (ep, en) = *ℤ_pos_parts v.coefficient 1000000 in
    let (qp, qn) =
      quantize_ratio_parts (v.coefficient *ℤ pos 1000000) (10 ^ v.places) (ten_pow_pos v.places) in
    rw (qp, qn, ep, en)
      (
        round_half_up-IsNearest (pos_part v.coefficient * 1000000) (10 ^ v.places)
            (ten_pow_pos v.places),
        round_half_up-IsNearest (neg_part v.coefficient * 1000000) (10 ^ v.places)
            (ten_pow_pos v.places),
      )

-- An amount of money is left as it is, so quantizing twice is quantizing once.
pub quantize_money-of_money : (m : Money) → quantize_money (of_money m) ≡ m
unfolding quantize_money
quantize_money-of_money m =
    let (ep, en) = *ℤ_pos_parts m 1000000 in
    let (qp, qn) = quantize_ratio_parts (m *ℤ pos 1000000) 1000000 (omega arith) in
    eq_of_parts _ _ (
      rw (qp, qn, ep, en)
        (omega (
          arith,
          round_half_up-mul (pos_part m) 1000000 (omega arith),
          round_half_up-mul (neg_part m) 1000000 (omega arith),
        )))

le-parts : (a b : ℤ) → a ≤ℤ b → (pos_part a ≤ pos_part b) × (neg_part b ≤ neg_part a)
le-parts (pos m) (pos n) h = ground arith
le-parts (pos m) (negsuc n) h = ground arith
le-parts (negsuc m) (pos n) h = ground arith
le-parts (negsuc m) (negsuc n) h = ground arith

-- Rounding keeps the order.
pub quantize_ratio_mono :
    (a b : ℤ) (d : ℕ) → 0 < d → a ≤ℤ b → quantize_ratio a d ≤ℤ quantize_ratio b d
quantize_ratio_mono a b d h k =
    let (ap, an) = quantize_ratio_parts a d h in
    let (bp, bn) = quantize_ratio_parts b d h in
    let (up, down) = le-parts a b k in
    omega (
      arith,
      ap,
      an,
      bp,
      bn,
      round_half_up_mono (pos_part a) (pos_part b) d up,
      round_half_up_mono (neg_part b) (neg_part a) d down,
    )

-- A value that is not negative is rounded to an amount that is not negative.
pub quantize_money_nonneg :
    (v : Decimal) → neg_part v.coefficient ≡ 0 → neg_part (quantize_money v) ≡ 0
unfolding quantize_money
quantize_money_nonneg v h =
    let (ep, en) = *ℤ_pos_parts v.coefficient 1000000 in
    let (qp, qn) =
      quantize_ratio_parts (v.coefficient *ℤ pos 1000000) (10 ^ v.places) (ten_pow_pos v.places) in
    rw (qn, en, h) (round_half_up-zero (10 ^ v.places) (ten_pow_pos v.places))
