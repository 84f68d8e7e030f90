-- ===== src/Positions/Pnl.antt =====
-- The profit of a close: `RealizedPnlCalculator.calculate` of app/services/realized_pnl_calculator.py
-- and `PnlCalculator.calculate_close` of app/services/pnl_calculator.py; and the profit of an open
-- position, `PnlCalculator.calculate_position`.
pub mod Agreement
pub mod Position
mod Tests
use sim_trade.Prelude.{Bool, true, false, List, [], ◌∷◌, Option, none, some, ◌||◌, if◌then◌else◌}
use sim_trade.Prelude.Int.{ℤ, pos, negsuc, leb_ℤ}
use sim_trade.Errors.{
  Result, ok, err, ◌>>=◌, ◌>>◌, raise_if, invalid_close_direction, invalid_position_direction,
  invalid_pnl_input,
}
use sim_trade.Enums.{OrderDirection, buy, sell, PositionDirection, long, short}
use sim_trade.Money.{Decimal, Money, of_int, times, minus, plus, quantize_money, is_nonpositive}

-- The close direction is a text; `none` is one that is neither BUY nor SELL.
unfoldable pub calculate : Option OrderDirection → Decimal → Decimal → ℤ → Decimal → Result Money
calculate none open_price close_price volume multiplier = err invalid_close_direction
calculate (some sell) open_price close_price volume multiplier =
    ok (quantize_money (times (times (minus close_price open_price) (of_int volume)) multiplier))
calculate (some buy) open_price close_price volume multiplier =
    ok (quantize_money (times (times (minus open_price close_price) (of_int volume)) multiplier))

pub record ClosePnlResult : Type 0 where
  pub realized_pnl : Money
  pub daily_close_pnl : Money

-- `Decimal("1") if direction == PositionDirection.LONG else Decimal("-1")`
unfoldable pub sign_of : PositionDirection → Decimal
sign_of long = of_int (pos 1)
sign_of short = of_int (negsuc 0)

-- `(price - base_price) * quantity * sign`
unfoldable pub profit : PositionDirection → Decimal → Decimal → Decimal → Decimal
unfolding sign_of
profit d price base_price quantity = times (times (minus price base_price) quantity) (sign_of d)

-- `quantize_money((close_price - base_price) * quantity * sign)`
signed_profit : PositionDirection → Decimal → Decimal → Decimal → Money
unfolding profit
signed_profit d close_price base_price quantity =
    quantize_money (profit d close_price base_price quantity)

known_direction : Option PositionDirection → Result PositionDirection
known_direction none = err invalid_position_direction
known_direction (some d) = ok d

unfoldable pub calculate_close :
    Option PositionDirection → Decimal → Decimal → Decimal → ℤ → Decimal → Result ClosePnlResult
unfolding known_direction signed_profit
calculate_close position_direction close_price open_price pnl_base_price volume multiplier = do
  d ← known_direction position_direction
  raise_if
      (is_nonpositive close_price
        || (is_nonpositive open_price
            || (is_nonpositive pnl_base_price
                || (is_nonpositive multiplier || leb_ℤ volume (pos 0)))))
      invalid_pnl_input
  let quantity = times (of_int volume) multiplier
  ok (record {
    realized_pnl = signed_profit d close_price open_price quantity;
    daily_close_pnl = signed_profit d close_price pnl_base_price quantity;
  })

pub record PnlDetailSnapshot : Type 0 where
  pub open_price : Decimal
  pub pnl_base_price : Decimal
  pub remaining_volume : ℤ

-- The fields that `calculate_position` reads.
pub record PositionPnlSnapshot : Type 0 where
  pub direction : Option PositionDirection
  pub contract_multiplier : Decimal
  pub details : List PnlDetailSnapshot
  pub uses_settlement_basis : Bool

pub record PositionPnlResult : Type 0 where
  pub cumulative_unrealized_pnl : Money
  pub daily_position_pnl : Money
  pub cash_unrealized_pnl : Money

-- The loop, on the two sums so far.
pub add_details :
    PositionDirection
    → Decimal
    → Decimal
    → List PnlDetailSnapshot
    → Decimal
    → Decimal
    → Result (Decimal × Decimal)
unfolding profit
add_details d mark_price multiplier [] cumulative daily = ok (cumulative, daily)
add_details d mark_price multiplier (detail ∷ rest) cumulative daily =
    elim (leb_ℤ detail.remaining_volume (pos 0)) [
      | true ↦ add_details d mark_price multiplier rest cumulative daily
      | false ↦ do
        raise_if (is_nonpositive detail.open_price || is_nonpositive detail.pnl_base_price)
            invalid_pnl_input
        let quantity = times (of_int detail.remaining_volume) multiplier
        add_details d mark_price multiplier rest
            (plus cumulative (profit d mark_price detail.open_price quantity))
            (plus daily (profit d mark_price detail.pnl_base_price quantity))
    ]

pub position_result : Bool → Decimal × Decimal → PositionPnlResult
position_result settled (cumulative, daily) = record {
  cumulative_unrealized_pnl = quantize_money cumulative;
  daily_position_pnl = quantize_money daily;
  cash_unrealized_pnl = if settled then quantize_money daily else quantize_money cumulative;
}

pub calculate_position : Decimal → PositionPnlSnapshot → Result PositionPnlResult
unfolding known_direction add_details position_result
calculate_position mark_price snapshot = do
  raise_if (is_nonpositive mark_price || is_nonpositive snapshot.contract_multiplier)
      invalid_pnl_input
  d ← known_direction snapshot.direction
  sums ←
      add_details d mark_price snapshot.contract_multiplier snapshot.details (of_int (pos 0))
        (of_int (pos 0))
  ok (position_result snapshot.uses_settlement_basis sums)
