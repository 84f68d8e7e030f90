-- ===== src/Positions/Pnl/Position.antt =====
-- The profit of an open position against what a close would realize.
use sim_trade.Prelude.{◌≡◌, ◌∙◌, ap, some, Bool, false, ◌||◌, [], ◌∷◌, arith, ◌^◌, ◌+◌}
use sim_trade.Prelude.Int.{ℤ, pos, negsuc, ◌+ℤ◌, ◌*ℤ◌, leb_ℤ, int_laws}
use sim_trade.Errors.{ok, raise_if, >>=-eq-ok, ok-injective}
use sim_trade.Enums.{PositionDirection}
use sim_trade.Money.{Decimal, Money, is_nonpositive, of_int, times, plus, quantize_money}
use sim_trade.Positions.Pnl.{
  profit, PnlDetailSnapshot, PositionPnlResult, add_details, position_result, calculate_position,
  ClosePnlResult, calculate_close,
}

zero-*ℤ : (b : ℤ) → pos 0 *ℤ b ≡ pos 0
unfolding ◌*ℤ◌
zero-*ℤ (pos n) = ground arith
zero-*ℤ (negsuc n) = ground arith

*ℤ-one : (a : ℤ) → a *ℤ pos 1 ≡ a
unfolding ◌*ℤ◌
*ℤ-one (pos a) = ground arith
*ℤ-one (negsuc a) = ground arith

plus-zero : (a : Decimal) → plus (of_int (pos 0)) a ≡ a
unfolding plus
plus-zero a =
    let c : pos 0 *ℤ pos (10 ^ a.places) +ℤ a.coefficient *ℤ pos 1 ≡ a.coefficient =
      rw (zero-*ℤ (pos (10 ^ a.places)), *ℤ-one a.coefficient) (omega int_laws) in
    let p : 0 + a.places ≡ a.places = omega arith in λ i. record { coefficient = c i; places = p i }

module _ (mark_price : Decimal) (d : PositionDirection) (multiplier : Decimal)
    (detail : PnlDetailSnapshot) where
  abbrev open_profit : Decimal
  open_profit =
      profit d mark_price detail.open_price (times (of_int detail.remaining_volume) multiplier)

  abbrev base_profit : Decimal
  base_profit =
      profit d mark_price detail.pnl_base_price (times (of_int detail.remaining_volume) multiplier)

  closed_facts :
      (closed : ClosePnlResult)
      → calculate_close
          (some d)
          mark_price
          detail.open_price
          detail.pnl_base_price
          detail.remaining_volume
          multiplier
        ≡ ok closed
      → (leb_ℤ detail.remaining_volume (pos 0) ≡ false)
        × (quantize_money open_profit ≡ closed.realized_pnl)
        × (quantize_money base_profit ≡ closed.daily_close_pnl)
  unfolding calculate_close
  closed_facts closed k = (ground arith, ground arith, ground arith)

  position_result_sums :
      {realized daily : Money} (settled : Bool)
      → quantize_money open_profit ≡ realized
      → quantize_money base_profit ≡ daily
      → let r =
          position_result settled
            (plus (of_int (pos 0)) open_profit, plus (of_int (pos 0)) base_profit) in
        (r.cumulative_unrealized_pnl ≡ realized) × (r.daily_position_pnl ≡ daily)
  unfolding position_result
  position_result_sums settled realized daily = (
    ap quantize_money (plus-zero open_profit) ∙ realized,
    ap quantize_money (plus-zero base_profit) ∙ daily,
  )

  added :
      (sums : Decimal × Decimal)
      → leb_ℤ detail.remaining_volume (pos 0) ≡ false
      → add_details d mark_price multiplier (detail ∷ []) (of_int (pos 0)) (of_int (pos 0))
        ≡ ok sums
      → (plus (of_int (pos 0)) open_profit, plus (of_int (pos 0)) base_profit) ≡ sums
  unfolding add_details
  added sums h k =
      let k' = rw (h, add_details) at k in
      let (_, _, k1) =
        >>=-eq-ok
          (raise_if (is_nonpositive detail.open_price || is_nonpositive detail.pnl_base_price) _) _
          k' in
      ok-injective k1

-- A position of one lot has the unrealized profit, against its open price and against its base
-- price, that a close of the lot at the mark price realizes.
pub calculate_position-calculate_close :
    (mark_price : Decimal) (d : PositionDirection) (multiplier : Decimal)
    → (detail : PnlDetailSnapshot) (settled : Bool) (unrealized : PositionPnlResult)
    → (closed : ClosePnlResult)
    → calculate_position mark_price (record {
      direction = some d;
      contract_multiplier = multiplier;
      details = detail ∷ [];
      uses_settlement_basis = settled;
    })
      ≡ ok unrealized
    → calculate_close
        (some d)
        mark_price
        detail.open_price
        detail.pnl_base_price
        detail.remaining_volume
        multiplier
      ≡ ok closed
    → (unrealized.cumulative_unrealized_pnl ≡ closed.realized_pnl)
      × (unrealized.daily_position_pnl ≡ closed.daily_close_pnl)
unfolding calculate_position
calculate_position-calculate_close mark_price d multiplier detail settled unrealized closed h k =
    let (left, realized, daily) = closed_facts mark_price d multiplier detail closed k in
    let (_, _, h1) =
      >>=-eq-ok (raise_if (is_nonpositive mark_price || is_nonpositive multiplier) _) _ h in
    let (sums, es, h2) =
      >>=-eq-ok
        (add_details d mark_price multiplier (detail ∷ []) (of_int (pos 0)) (of_int (pos 0))) _
        h1 in
    let e = added mark_price d multiplier detail sums left es in
    let u : position_result settled sums ≡ unrealized = ok-injective h2 in
    rw (← u, ← e) (position_result_sums mark_price d multiplier detail settled realized daily)
