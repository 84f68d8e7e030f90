-- ===== src/Fees/Snapshot.antt =====
-- `FeeCalculator.calculate` and what it calls: the fee of one price and volume.
-- Every `Decimal` argument is typed, so the `isinstance` tests of the source have no counterpart.
pub mod Laws
mod Tests
use sim_trade.Prelude.{Option, none, some, if◌then◌else◌}
use sim_trade.Prelude.Int.{ℤ, pos, ltb_ℤ, leb_ℤ}
use sim_trade.Errors.{
  Result, ok, err, ◌>>=◌, ◌>>◌, raise_if, invalid_fee_price, invalid_fee_volume,
  unsupported_offset_flag, invalid_commission, invalid_contract_multiplier,
  unsupported_commission_type,
}
use sim_trade.Enums.{
  OffsetFlag, open_flag, close_flag, close_today, close_yesterday, CommissionType, by_volume,
  by_amount,
}
use sim_trade.Money.{Decimal, Money, of_int, times, quantize_money}

-- The columns of `FeeRule` that the calculator reads.
pub record FeeRule : Type 0 where
  pub commission_type : Option CommissionType
  pub open_commission : Decimal
  pub close_commission : Decimal
  pub close_today_commission : Decimal

unfoldable pub resolve_commission_parameter : OffsetFlag → FeeRule → Decimal
resolve_commission_parameter open_flag rule = rule.open_commission
resolve_commission_parameter close_flag rule = rule.close_commission
resolve_commission_parameter close_today rule = rule.close_today_commission
resolve_commission_parameter close_yesterday rule = rule.close_commission

-- The product before it is quantized.
unfoldable pub exact_fee : Decimal → ℤ → CommissionType → Decimal → Decimal → Decimal
exact_fee price volume by_volume parameter multiplier = times (of_int volume) parameter
exact_fee price volume by_amount parameter multiplier =
    times (times (times price (of_int volume)) multiplier) parameter

fee_of_type : Decimal → ℤ → Option CommissionType → Decimal → Decimal → Result Money
unfolding exact_fee
fee_of_type price volume none parameter multiplier = err unsupported_commission_type
fee_of_type price volume (some t) parameter multiplier =
    ok (quantize_money (exact_fee price volume t parameter multiplier))

unfoldable pub calculate_from_snapshot :
    Decimal → ℤ → Option CommissionType → Decimal → Decimal → Result Money
unfolding fee_of_type
calculate_from_snapshot price volume commission_type parameter multiplier = do
  raise_if (leb_ℤ price.coefficient (pos 0)) invalid_fee_price
  raise_if (leb_ℤ volume (pos 0)) invalid_fee_volume
  raise_if (ltb_ℤ parameter.coefficient (pos 0)) invalid_commission
  raise_if (leb_ℤ multiplier.coefficient (pos 0)) invalid_contract_multiplier
  fee_of_type price volume commission_type parameter multiplier

known_flag : Option OffsetFlag → Result OffsetFlag
known_flag none = err unsupported_offset_flag
known_flag (some flag) = ok flag

pub calculate : Decimal → ℤ → Option OffsetFlag → Decimal → FeeRule → Result Money
unfolding known_flag calculate_from_snapshot resolve_commission_parameter
calculate price volume offset_flag contract_multiplier rule = do
  raise_if (leb_ℤ price.coefficient (pos 0)) invalid_fee_price
  raise_if (leb_ℤ volume (pos 0)) invalid_fee_volume
  flag ← known_flag offset_flag
  calculate_from_snapshot price volume rule.commission_type (resolve_commission_parameter flag rule)
      contract_multiplier
