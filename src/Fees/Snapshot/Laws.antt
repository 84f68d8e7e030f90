-- ===== src/Fees/Snapshot/Laws.antt =====
-- The fee of one snapshot.
use sim_trade.Prelude.{ℕ, ◌+◌, ◌*◌, ◌^◌, ◌≡◌, refl, some, arith, ◌↔◌}
use sim_trade.Prelude.Int.{
  ℤ, pos, ◌*ℤ◌, ◌≤ℤ◌, *ℤ_nonneg, nonneg_of_neg_part, ◌<ℤ◌, pos_part, neg_part,
}
use sim_trade.Errors.{ok}
use sim_trade.Enums.{CommissionType, by_volume, by_amount}
use sim_trade.Money.{Decimal, Money, quantize_money}
use sim_trade.Money.Rounding.{IsNearest, quantize_money-IsNearest, quantize_money_nonneg}
use sim_trade.Fees.Snapshot.{exact_fee, calculate_from_snapshot}

-- The arguments that the calculator accepts.
pub record IsAccepted (price : Decimal) (volume : ℤ) (parameter multiplier : Decimal) : Type 0 where
  pub price_pos : pos 0 <ℤ price.coefficient
  pub volume_pos : pos 0 <ℤ volume
  pub parameter_nonneg : pos 0 ≤ℤ parameter.coefficient
  pub multiplier_pos : pos 0 <ℤ multiplier.coefficient

-- A fee is computed exactly for the accepted arguments with a known commission type, and it is the
-- quantized product.
pub calculate_from_snapshot_iff :
    (price : Decimal) (volume : ℤ) (t : CommissionType) (parameter multiplier : Decimal)
    → (fee : Money)
    → (calculate_from_snapshot price volume (some t) parameter multiplier ≡ ok fee) ↔ (
        IsAccepted price volume parameter multiplier
        × (quantize_money (exact_fee price volume t parameter multiplier) ≡ fee))
unfolding calculate_from_snapshot
calculate_from_snapshot_iff price volume t parameter multiplier fee =
    (λ e. ground arith, λ a. ground arith)

-- The four factors as numbers: what the exact fee by amount is, and its decimal places.
module _ (price : Decimal) (volume : ℤ) (parameter multiplier : Decimal) where
  abbrev amount_product : ℕ
  amount_product =
      pos_part price.coefficient
      * pos_part volume
      * pos_part multiplier.coefficient
      * pos_part parameter.coefficient

  abbrev amount_places : ℕ
  amount_places = price.places + 0 + multiplier.places + parameter.places

  amount_coefficient :
      IsAccepted price volume parameter multiplier
      → let c = (exact_fee price volume by_amount parameter multiplier).coefficient in
        (pos_part c ≡ amount_product) × (neg_part c ≡ 0)
  unfolding exact_fee
  amount_coefficient a =
      let c1 = price.coefficient *ℤ volume in
      let c2 = c1 *ℤ multiplier.coefficient in
      let (p1, n1) = *ℤ_nonneg price.coefficient volume (omega arith) (omega arith) in
      let (p2, n2) = *ℤ_nonneg c1 multiplier.coefficient (omega arith) (omega arith) in
      let (p3, n3) = *ℤ_nonneg c2 parameter.coefficient (omega arith) a.parameter_nonneg in
      (rw (p3, p2, p1) refl, n3)

  -- An accepted fee by amount is not negative, and it is the exact product of price, volume,
  -- multiplier and rate to the nearest 0.000001, a tie going up.
  pub calculate_from_snapshot-IsNearest :
      (fee : Money)
      → calculate_from_snapshot price volume (some by_amount) parameter multiplier ≡ ok fee
      → (neg_part fee ≡ 0)
        × IsNearest (amount_product * 1000000) (10 ^ amount_places) (pos_part fee)
  unfolding exact_fee
  calculate_from_snapshot-IsNearest fee e =
      let (a, q) =
        (calculate_from_snapshot_iff price volume by_amount parameter multiplier fee).0 e in
      let v = exact_fee price volume by_amount parameter multiplier in
      let (cp, cn) = amount_coefficient a in
      let near = (quantize_money-IsNearest v).0 in
      (rw (← q) (quantize_money_nonneg v cn), rw (q, cp) at near)

volume_coefficient :
    (price : Decimal) (volume : ℤ) (parameter multiplier : Decimal)
    → IsAccepted price volume parameter multiplier
    → neg_part (exact_fee price volume by_volume parameter multiplier).coefficient ≡ 0
unfolding exact_fee
volume_coefficient price volume parameter multiplier a =
    (*ℤ_nonneg volume parameter.coefficient (omega arith) a.parameter_nonneg).1

exact_fee_nonneg :
    (price : Decimal) (volume : ℤ) (t : CommissionType) (parameter multiplier : Decimal)
    → IsAccepted price volume parameter multiplier
    → neg_part (exact_fee price volume t parameter multiplier).coefficient ≡ 0
exact_fee_nonneg price volume by_volume parameter multiplier a =
    volume_coefficient price volume parameter multiplier a
exact_fee_nonneg price volume by_amount parameter multiplier a =
    (amount_coefficient price volume parameter multiplier a).1

-- A fee that is computed is not negative.
pub calculate_from_snapshot_nonneg :
    (price : Decimal) (volume : ℤ) (t : CommissionType) (parameter multiplier : Decimal)
    → (fee : Money) → calculate_from_snapshot price volume (some t) parameter multiplier ≡ ok fee
    → pos 0 ≤ℤ fee
calculate_from_snapshot_nonneg price volume t parameter multiplier fee e =
    let (a, q) = (calculate_from_snapshot_iff price volume t parameter multiplier fee).0 e in
    nonneg_of_neg_part fee (
      rw (← q) (
        quantize_money_nonneg (exact_fee price volume t parameter multiplier)
          (exact_fee_nonneg price volume t parameter multiplier a)))
