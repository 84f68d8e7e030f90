-- ===== src/Positions/CloseAllocator/Tests.antt =====
-- A close order of 5 over lots of yesterday and of today, one of them partly frozen.
use sim_trade.Prelude.{◌≡◌, ◌⊎◌, refl, List, [], ◌∷◌, arith}
use sim_trade.Prelude.Int.{pos, ◌<ℤ◌, ◌≤ℤ◌, ◌-ℤ◌}
use sim_trade.Errors.{ok, err}
use sim_trade.Enums.{close_flag, close_today, close_yesterday}
use sim_trade.Positions.CloseAllocator.{Detail, PositionFreezePlan, allocate}
use sim_trade.Positions.CloseAllocator.Order.{may_close, available_volume}
use sim_trade.Positions.CloseAllocator.Queue.{insufficient_code}
use sim_trade.Positions.CloseAllocator.Laws.{IsAllocated, allocate_outcome}

abbrev lot_of_today : Detail
lot_of_today = record {
  id = 1;
  open_trading_day = 20;
  remaining_volume = pos 4;
  frozen_volume = pos 0;
}

abbrev newer_lot : Detail
newer_lot = record {
  id = 3;
  open_trading_day = 19;
  remaining_volume = pos 3;
  frozen_volume = pos 1;
}

abbrev older_lot : Detail
older_lot = record {
  id = 2;
  open_trading_day = 18;
  remaining_volume = pos 2;
  frozen_volume = pos 0;
}

abbrev lots : List Detail
lots = lot_of_today ∷ newer_lot ∷ older_lot ∷ []

lots_allocated :
    allocate lots close_flag 20 (pos 5)
    ≡ ok (
        record { detail = older_lot; volume = pos 2; resolved_offset_flag = close_yesterday }
        ∷ record { detail = newer_lot; volume = pos 2; resolved_offset_flag = close_yesterday }
        ∷ record { detail = lot_of_today; volume = pos 1; resolved_offset_flag = close_today }
        ∷ [])
unfolding allocate ◌-ℤ◌
lots_allocated = refl

allocate_outcome_example :
    ((pos 5 ≤ℤ available_volume (may_close close_flag 20) lots)
      × ((plans : List PositionFreezePlan) × (allocate lots close_flag 20 (pos 5) ≡ ok plans)
          × IsAllocated close_flag 20 lots (pos 5) plans))
    ⊎ ((available_volume (may_close close_flag 20) lots <ℤ pos 5)
        × (allocate lots close_flag 20 (pos 5) ≡ err (insufficient_code close_flag)))
allocate_outcome_example = allocate_outcome lots close_flag 20 (pos 5) (λ h. cc) (omega arith)
