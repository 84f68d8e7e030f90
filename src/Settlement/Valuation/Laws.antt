-- ===== src/Settlement/Valuation/Laws.antt =====
-- The valuation counts the required margin, which is not below the used one.
use native.Mathlib.Nat.{mul-le-mul_right, pow-suc}
use sim_trade.Prelude.{ℕ, zero, suc, ◌+◌, ◌*◌, ◌^◌, ◌≤◌, ◌<◌, ◌≡◌, refl, ap, arith}
use sim_trade.Prelude.Int.{
  ℤ, pos, pos_part, neg_part, ◌+ℤ◌, ◌-ℤ◌, ◌*ℤ◌, ◌≤ℤ◌, max_ℤ, eq_of_parts, int_laws,
}
use sim_trade.Money.{Decimal, Money, of_money, plus, quantize_money}
use sim_trade.Money.Rounding.{
  *ℤ_pos_parts, ten_pow_pos, quantize_ratio_mono, quantize_ratio_parts, round_half_up-mul,
}
use sim_trade.Settlement.Valuation.{AccountValuation, collateral_of, effective_margin, valuation_of}

times_mono : (a b : ℤ) (k : ℕ) → a ≤ℤ b → a *ℤ pos k ≤ℤ b *ℤ pos k
times_mono a b k h =
    let (ap, an) = *ℤ_pos_parts a k in
    let (bp, bn) = *ℤ_pos_parts b k in
    let scaled : (pos_part a + neg_part b) * k ≤ (pos_part b + neg_part a) * k =
      mul-le-mul_right k h in
    rw (ap, an, bp, bn) (omega arith)

-- A larger amount on top of a collateral is quantized to no less.
quantize_mono :
    (a b : Money) (d : Decimal)
    → a ≤ℤ b
    → quantize_money (plus (of_money a) d) ≤ℤ quantize_money (plus (of_money b) d)
unfolding quantize_money plus
quantize_mono a b d h =
    let scaled = times_mono a b (10 ^ d.places) h in
    quantize_ratio_mono _ _ (10 ^ (6 + d.places)) (ten_pow_pos (6 + d.places))
      (times_mono _ _ 1000000 (omega int_laws))

max_left : (a b : ℤ) → a ≤ℤ max_ℤ a b
max_left a b = ground arith

-- Whatever the account holds, the cash that is free for risk is not above the available cash, and the
-- required margin is not below the used one.
pub valuation_of_risk :
    (ratio : Decimal) (v : AccountValuation)
    → ((valuation_of ratio v).risk_available_cash ≤ℤ (valuation_of ratio v).available_cash)
      × (v.used_margin ≤ℤ (valuation_of ratio v).effective_required_margin)
unfolding valuation_of effective_margin
valuation_of_risk ratio v =
    let futures = max_left (v.used_margin -ℤ v.option_used_margin) (pos 0) in
    let options = max_left v.option_used_margin v.option_realtime_required_margin in
    let more : v.used_margin ≤ℤ effective_margin v = omega int_laws in
    (quantize_mono _ _ (collateral_of ratio v) (omega int_laws), more)

add_nothing : (a : ℤ) (k : ℕ) → a +ℤ (pos 0 *ℤ pos k) ≡ a
add_nothing a k = let (zp, zn) = *ℤ_pos_parts (pos 0) k in omega (int_laws, zp, zn)

ten_shift : (x : ℕ) → 10 ^ (6 + x) ≡ 1000000 * 10 ^ x
ten_shift zero = refl
ten_shift (suc x) =
    let low = pow-suc 10 x in
    let high = pow-suc 10 (6 + x) in
    let before = ten_shift x in
    let exponent : 6 + suc x ≡ suc (6 + x) = omega arith in
    let same : 10 ^ (6 + suc x) ≡ 10 ^ suc (6 + x) = ap (λ (k : ℕ). 10 ^ k) exponent in omega arith

scale : (a x : ℕ) → a * 10 ^ x * 1000000 ≡ a * 10 ^ (6 + x)
scale a x = let split = ten_shift x in rw split (omega arith)

-- Without a collateral the amount stays as it is.
pub quantize-plain :
    (m : Money) (d : Decimal) → d.coefficient ≡ pos 0 → quantize_money (plus (of_money m) d) ≡ m
unfolding quantize_money plus
quantize-plain m d h =
    let places : 0 < 10 ^ (6 + d.places) = ten_pow_pos (6 + d.places) in
    let (ap, an) = *ℤ_pos_parts m (10 ^ d.places) in
    let (bp, bn) = *ℤ_pos_parts (m *ℤ pos (10 ^ d.places)) 1000000 in
    let (qp, qn) =
      quantize_ratio_parts (m *ℤ pos (10 ^ d.places) *ℤ pos 1000000) (10 ^ (6 + d.places)) places in
    rw (h, add_nothing (m *ℤ pos (10 ^ d.places)) 1000000)
      (eq_of_parts _ _ (
        rw
          (
            qp,
            qn,
            bp,
            bn,
            ap,
            an,
            scale (pos_part m) d.places,
            scale (neg_part m) d.places,
            round_half_up-mul (pos_part m) (10 ^ (6 + d.places)) places,
            round_half_up-mul (neg_part m) (10 ^ (6 + d.places)) places,
          )
          (omega arith)))
