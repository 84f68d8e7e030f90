-- ===== src/Money/Proportion.antt =====
-- Laws of a proportion of an amount of money.
use sim_trade.Prelude.{◌+◌, ◌*◌, ◌≤◌, ◌≡◌, arith}
use sim_trade.Prelude.Int.{
  ℤ, pos, negsuc, pos_part, ◌*ℤ◌, ◌≤ℤ◌, ◌<ℤ◌, *ℤ_nonneg, neg_part_of_nonneg, eq_of_parts,
}
use sim_trade.Money.{proportion}
use sim_trade.Money.Rounding.{
  quantize_ratio_mono, quantize_ratio_parts, round_half_up-mul, round_half_up-zero,
}

product_mono :
    (c a b : ℤ) → pos 0 ≤ℤ a → a ≤ℤ b → pos_part c * pos_part a + 0 ≤ pos_part c * pos_part b + 0
product_mono c (pos m) (pos n) h k = grind arith
product_mono c (pos m) (negsuc n) h k = absurd (omega arith)
product_mono c (negsuc m) b h k = absurd (omega arith)

-- A larger part of an amount that is not negative gets no less of it.
pub proportion_mono :
    (amount whole a b : ℤ)
    → pos 0 ≤ℤ amount
    → pos 0 ≤ℤ a
    → a ≤ℤ b
    → pos 0 <ℤ whole
    → proportion amount a whole ≤ℤ proportion amount b whole
unfolding proportion
proportion_mono amount whole a b hc ha hab ht =
    let (ap, an) = *ℤ_nonneg amount a hc ha in
    let (bp, bn) = *ℤ_nonneg amount b hc (omega arith) in
    let larger : amount *ℤ a ≤ℤ amount *ℤ b =
      rw (ap, an, bp, bn) (product_mono amount a b ha hab) in
    quantize_ratio_mono _ _ _ (omega arith) larger

-- The whole gets the whole amount, and nothing gets nothing.
pub proportion_whole :
    (amount whole : ℤ) → pos 0 ≤ℤ amount → pos 0 <ℤ whole → proportion amount whole whole ≡ amount
unfolding proportion
proportion_whole amount whole hc ht =
    let (tp, tn) = *ℤ_nonneg amount whole hc (omega arith) in
    let (qp, qn) = quantize_ratio_parts (amount *ℤ whole) (pos_part whole) (omega arith) in
    eq_of_parts _ _ (
      rw (qp, qn, tp, tn)
        (omega (
          arith,
          neg_part_of_nonneg amount hc,
          round_half_up-mul (pos_part amount) (pos_part whole) (omega arith),
          round_half_up-zero (pos_part whole) (omega arith),
        )))

proportion_zero :
    (amount whole : ℤ) → pos 0 ≤ℤ amount → pos 0 <ℤ whole → pos 0 ≤ℤ proportion amount (pos 0) whole
unfolding proportion
proportion_zero amount whole hc ht =
    let (zp, zn) = *ℤ_nonneg amount (pos 0) hc (omega arith) in
    let (qp, qn) = quantize_ratio_parts (amount *ℤ pos 0) (pos_part whole) (omega arith) in
    rw (qn, zn) (omega (arith, round_half_up-zero (pos_part whole) (omega arith)))

pub proportion_nonneg :
    (amount part whole : ℤ)
    → pos 0 ≤ℤ amount
    → pos 0 ≤ℤ part
    → pos 0 <ℤ whole
    → pos 0 ≤ℤ proportion amount part whole
proportion_nonneg amount part whole hc hp ht = omega (
  arith,
  proportion_zero amount whole hc ht,
  proportion_mono amount whole (pos 0) part hc (omega arith) hp ht,
)

pub proportion-le :
    (amount part whole : ℤ)
    → pos 0 ≤ℤ amount
    → pos 0 ≤ℤ part
    → part ≤ℤ whole
    → pos 0 <ℤ whole
    → proportion amount part whole ≤ℤ amount
proportion-le amount part whole hc hp hw ht =
    let top = proportion_mono amount whole part whole hc hp hw ht in
    rw (proportion_whole amount whole hc ht) at top
