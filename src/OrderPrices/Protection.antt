-- ===== src/OrderPrices/Protection.antt =====
-- The price that protects a market order.
use sim_trade.Prelude.{◌^◌, ◌≡◌, refl, true, not, ◌||◌, inl, inr, arith, Bool-cases, if◌then◌else◌}
use sim_trade.Prelude.Int.{ℤ, pos, ◌*ℤ◌, ◌≤ℤ◌, ◌<ℤ◌, ltb_ℤ, int_laws, *ℤ_nonneg, nonneg_of_neg_part}
use sim_trade.Errors.{ok, err, raise_if-eq-ok, market_protection_price_invalid}
use sim_trade.Enums.{OrderDirection, buy, sell}
use sim_trade.Money.{Decimal, of_int, plus, minus, lt_decimal, is_nonpositive}
use sim_trade.Money.Rounding.{*ℤ_pos_parts}
use sim_trade.OrderPrices.{
  validate_price_tick, check_slippage_rate, slipped, is_buy, market_protection,
}
use sim_trade.OrderPrices.Rounding.{
  IsRounded, round_to_tick-IsRounded, validate_price_tick-multiple,
}

-- What `__init__` lets through.
rate_bounds :
    (rate : Decimal)
    → check_slippage_rate rate ≡ ok tt
    → (pos 0 ≤ℤ rate.coefficient) × (lt_decimal rate (of_int (pos 1)) ≡ true)
unfolding check_slippage_rate
rate_bounds rate h =
    let tested =
      raise_if-eq-ok (ltb_ℤ rate.coefficient (pos 0) || not (lt_decimal rate (of_int (pos 1)))) _
        h in
    (ground arith, ground arith)

product_nonneg : (a b : ℤ) → pos 0 ≤ℤ a → pos 0 ≤ℤ b → pos 0 ≤ℤ a *ℤ b
product_nonneg a b ha hb =
    let (_, none_below) = *ℤ_nonneg a b ha hb in nonneg_of_neg_part (a *ℤ b) none_below

slipped_nonneg :
    (rate : Decimal) (direction : OrderDirection) (opposite : Decimal)
    → check_slippage_rate rate ≡ ok tt
    → pos 0 <ℤ opposite.coefficient
    → pos 0 ≤ℤ (slipped rate direction opposite).coefficient
unfolding plus minus
slipped_nonneg rate direction opposite h ho =
    let (low, less) = rate_bounds rate h in
    let (op, on) = *ℤ_pos_parts (pos 1) (10 ^ rate.places) in
    let (rp, rn) = *ℤ_pos_parts rate.coefficient 1 in
    let below : rate.coefficient *ℤ pos 1 <ℤ pos 1 *ℤ pos (10 ^ rate.places) = ground arith in
    elim direction as (λ d. pos 0 ≤ℤ (slipped rate d opposite).coefficient) [
      | buy ↦ product_nonneg opposite.coefficient _ (omega arith) (omega int_laws)
      | sell ↦ product_nonneg opposite.coefficient _ (omega arith) (omega int_laws)
    ]

-- The price that protects a market order, against a positive price of the other side, for a positive
-- tick and a rate that the resolver accepts: the slipped price rounded to the tick, upwards for a
-- purchase and downwards for a sale. It passes the check of the tick; it is given if it is positive, and
-- refused otherwise.
pub market_protection-IsRounded :
    (rate price_tick opposite : Decimal) (direction : OrderDirection)
    → check_slippage_rate rate ≡ ok tt
    → pos 0 <ℤ price_tick.coefficient
    → pos 0 <ℤ opposite.coefficient
    → (p : Decimal) × IsRounded (is_buy direction) (slipped rate direction opposite) price_tick p
      × (validate_price_tick p price_tick ≡ ok tt)
      × (market_protection rate price_tick direction opposite
          ≡ (if is_nonpositive p then err market_protection_price_invalid else ok p))
unfolding market_protection
market_protection-IsRounded rate price_tick opposite direction hr ht ho =
    let (found, is_found, rounded) =
      round_to_tick-IsRounded (slipped rate direction opposite) price_tick (is_buy direction)
        (slipped_nonneg rate direction opposite hr ho) ht in
    (
      found,
      rounded,
      rw rounded.is_multiple (validate_price_tick-multiple price_tick rounded.count ht),
      rw is_found (elim (Bool-cases (is_nonpositive found)) [
        | inl bad ↦ rw bad refl
        | inr good ↦ rw good refl
      ]),
    )
