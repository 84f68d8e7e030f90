-- ===== src/Positions/Pnl/Agreement.antt =====
-- The two profit calculators agree: closing a long position is a sell, closing a short one a buy.
use sim_trade.Prelude.{ℕ, ◌+◌, ◌*◌, ◌^◌, ◌≡◌, ◌∙◌, sym, ap, some, arith}
use sim_trade.Prelude.Int.{
  ℤ, pos, negsuc, pos_part, neg_part, ◌-ℤ◌, ◌*ℤ◌, -ℤ_parts, eq_of_parts, int_laws,
}
use sim_trade.Errors.{ok}
use sim_trade.Enums.{OrderDirection, buy, sell, PositionDirection, long, short}
use sim_trade.Money.{Decimal, of_int, times, minus, quantize_money}
use sim_trade.Positions.Pnl.{calculate, ClosePnlResult, signed_profit, calculate_close}

*ℤ_parts :
    (a b : ℤ)
    → pos_part (a *ℤ b) + (pos_part a * neg_part b + neg_part a * pos_part b)
      ≡ neg_part (a *ℤ b) + (pos_part a * pos_part b + neg_part a * neg_part b)
unfolding ◌*ℤ◌
*ℤ_parts a b = ground arith

scale : (k : ℕ) {x y : ℕ} → x ≡ y → x * k ≡ y * k
scale k e = ap (λ (t : ℕ). t * k) e

*ℤ_assoc : (a b c : ℤ) → a *ℤ b *ℤ c ≡ a *ℤ (b *ℤ c)
*ℤ_assoc a b c = eq_of_parts _ _ (
    omega (
      arith,
      *ℤ_parts (a *ℤ b) c,
      *ℤ_parts a (b *ℤ c),
      scale (pos_part c) (*ℤ_parts a b),
      scale (neg_part c) (*ℤ_parts a b),
      scale (pos_part a) (*ℤ_parts b c),
      scale (neg_part a) (*ℤ_parts b c),
    ))

*ℤ_one : (a : ℤ) → a *ℤ pos 1 ≡ a
unfolding ◌*ℤ◌
*ℤ_one (pos a) = ground arith
*ℤ_one (negsuc a) = ground arith

*ℤ_minus_one : (a : ℤ) → a *ℤ negsuc 0 ≡ pos 0 -ℤ a
unfolding ◌*ℤ◌ ◌-ℤ◌
*ℤ_minus_one (pos a) = ground arith
*ℤ_minus_one (negsuc a) = ground arith

neg-*ℤ : (a b : ℤ) → pos 0 -ℤ a *ℤ b ≡ (pos 0 -ℤ a) *ℤ b
neg-*ℤ a b = eq_of_parts _ _ (
    omega (
      int_laws,
      *ℤ_parts a b,
      *ℤ_parts (pos 0 -ℤ a) b,
      scale (pos_part b) (-ℤ_parts (pos 0) a),
      scale (neg_part b) (-ℤ_parts (pos 0) a),
    ))

neg-minus : (a b : ℤ) → pos 0 -ℤ (a -ℤ b) ≡ b -ℤ a
neg-minus a b = omega int_laws

-- The coefficient of a profit, with the sign last or the difference turned round.
sell_coefficient : (x v m : ℤ) → x *ℤ (v *ℤ m) *ℤ pos 1 ≡ x *ℤ v *ℤ m
sell_coefficient x v m = *ℤ_one (x *ℤ (v *ℤ m)) ∙ sym (*ℤ_assoc x v m)

buy_coefficient : (x y v m : ℤ) → (x -ℤ y) *ℤ (v *ℤ m) *ℤ negsuc 0 ≡ (y -ℤ x) *ℤ v *ℤ m
buy_coefficient x y v m =
    *ℤ_minus_one ((x -ℤ y) *ℤ (v *ℤ m))
    ∙ neg-*ℤ (x -ℤ y) (v *ℤ m)
    ∙ (rw (neg-minus x y) (sym (*ℤ_assoc (y -ℤ x) v m)))

decimal_eq :
    (c d : ℤ) (p q : ℕ)
    → c ≡ d
    → p ≡ q
    → ◌≡◌ {A = Decimal}
        (record { coefficient = c; places = p })
        (record { coefficient = d; places = q })
decimal_eq c d p q e f = cc

-- The order that closes a position of this direction.
abbrev pub closing_order : PositionDirection → OrderDirection
closing_order long = sell
closing_order short = buy

signed_profit-calculate :
    (d : PositionDirection) (close_price open_price : Decimal) (volume : ℤ) (multiplier : Decimal)
    → calculate (some (closing_order d)) open_price close_price volume multiplier
      ≡ ok (signed_profit d close_price open_price (times (of_int volume) multiplier))
unfolding calculate signed_profit minus
signed_profit-calculate long c o v m =
    ap (λ (x : Decimal). ok (quantize_money x))
      (decimal_eq _ _ _ _ (sym (sell_coefficient (minus c o).coefficient v m.coefficient))
        (omega arith))
signed_profit-calculate short c o v m =
    ap (λ (x : Decimal). ok (quantize_money x))
      (decimal_eq _ _ _ _
        (sym (
          buy_coefficient (c.coefficient *ℤ pos (10 ^ o.places))
            (o.coefficient *ℤ pos (10 ^ c.places)) v m.coefficient))
        (omega arith))

-- Where `calculate_close` returns a result, its realized profit is what `RealizedPnlCalculator` gives
-- for the closing order of the position, on the same prices, volume and multiplier.
pub calculate_close-calculate :
    (d : PositionDirection) (close_price open_price base_price : Decimal)
    → (volume : ℤ) (multiplier : Decimal) (result : ClosePnlResult)
    → calculate_close (some d) close_price open_price base_price volume multiplier ≡ ok result
    → (calculate (some (closing_order d)) open_price close_price volume multiplier
        ≡ ok result.realized_pnl)
      × (calculate (some (closing_order d)) base_price close_price volume multiplier
          ≡ ok result.daily_close_pnl)
unfolding calculate_close
calculate_close-calculate d close_price open_price base_price volume multiplier result h = (
  signed_profit-calculate d close_price open_price volume multiplier ∙ ground arith,
  signed_profit-calculate d close_price base_price volume multiplier ∙ ground arith,
)
