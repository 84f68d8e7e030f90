-- ===== src/Positions/MarginRelease.antt =====
-- `MarginReleaseCalculator.calculate`, app/services/margin_release_calculator.py, and
-- `_allocate_frozen_commission` of app/services/close_trade_settlement_handler.py, which shares an
-- amount in the same way.
pub mod Laws
mod Tests
use sim_trade.Prelude.{◌||◌, if◌then◌else◌}
use sim_trade.Prelude.Int.{ℤ, pos, pos_part, ◌*ℤ◌, ltb_ℤ, leb_ℤ, eqb_ℤ}
use sim_trade.Errors.{Result, ok, ◌>>=◌, ◌>>◌, raise_if, position_margin_inconsistent}
use sim_trade.Money.{Money, proportion}

-- The whole volume takes the whole amount, with no division.
unfoldable pub allocate_frozen_commission : Money → ℤ → ℤ → Money
allocate_frozen_commission amount fill_volume remaining_volume =
    if eqb_ℤ fill_volume remaining_volume
    then amount
    else proportion amount fill_volume remaining_volume

unfoldable pub release_margin : Money → ℤ → ℤ → Result Money
release_margin remaining_margin close_volume remaining_volume = do
  raise_if
      (ltb_ℤ remaining_margin (pos 0)
        || (leb_ℤ close_volume (pos 0)
            || (leb_ℤ remaining_volume (pos 0) || ltb_ℤ remaining_volume close_volume)))
      position_margin_inconsistent
  ok (
      if eqb_ℤ close_volume remaining_volume
      then remaining_margin
      else proportion remaining_margin close_volume remaining_volume)
