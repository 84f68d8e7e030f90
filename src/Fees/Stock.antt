-- ===== src/Fees/Stock.antt =====
-- `FeeCalculator.calculate_stock_components`: each component is quantized and raised to its
-- minimum, and two components of one type are refused. Fee types are texts that are only compared,
-- so a number stands for each.
pub mod Laws
mod Tests
use sim_trade.Prelude.{ℕ, Bool, false, ◌||◌, ◌==◌, Option, List, [], ◌∷◌, if◌then◌else◌}
use sim_trade.Prelude.Int.{ℤ, pos, ◌+ℤ◌, max_ℤ}
use sim_trade.Errors.{Result, ok, ◌>>=◌, ◌>>◌, raise_if, duplicate_stock_fee_component}
use sim_trade.Enums.{CommissionType}
use sim_trade.Money.{Decimal, Money, quantize_money}
use sim_trade.Fees.Snapshot.{calculate_from_snapshot}

-- The fields that the calculation reads.
pub record StockFeeComponent : Type 0 where
  pub fee_type : ℕ
  pub calculation_type : Option CommissionType
  pub commission_parameter : Decimal
  pub minimum_fee : Decimal
  pub contract_multiplier : Decimal

-- `fee_type in seen_types`
pub seen : ℕ → List ℕ → Bool
seen t [] = false
seen t (s ∷ rest) = (t == s) || seen t rest

pub component_fee : Decimal → ℤ → StockFeeComponent → Result Money
component_fee price volume c =
    calculate_from_snapshot price volume c.calculation_type c.commission_parameter
      c.contract_multiplier

-- `max(raw_fee, quantize_money(component.minimum_fee))`
pub with_minimum : Money → StockFeeComponent → Money
with_minimum raw_fee c = max_ℤ raw_fee (quantize_money c.minimum_fee)

-- The loop, on the types seen so far and the total so far.
pub stock_loop : Decimal → ℤ → List StockFeeComponent → List ℕ → Money → Result Money
stock_loop price volume [] seen_types total = ok total
stock_loop price volume (c ∷ rest) seen_types total = do
  raise_if (seen c.fee_type seen_types) duplicate_stock_fee_component
  raw_fee ← component_fee price volume c
  stock_loop price volume rest (c.fee_type ∷ seen_types) (total +ℤ with_minimum raw_fee c)

pub calculate_stock_components : Decimal → ℤ → List StockFeeComponent → Result Money
unfolding stock_loop
calculate_stock_components price volume components = stock_loop price volume components [] (pos 0)
