-- ===== src/Settlement/Consumption/Tests.antt =====
-- A fill of a closing order over two allocations, and the theorems at it.
use sim_trade.Prelude.{ℕ, ◌≡◌, refl, false, some, List, [], ◌∷◌, map, All, arith, Option}
use sim_trade.Prelude.Int.{ℤ, pos, ◌+ℤ◌, ◌-ℤ◌, ◌*ℤ◌}
use sim_trade.Errors.{ok}
use sim_trade.Enums.{sell, long, close_yesterday, CommissionType, by_volume}
use sim_trade.Money.{
  Money, of_int, minus, proportion, quantize_ratio, round_half_up, quantize_money,
}
use sim_trade.Positions.MarginRelease.{release_margin, allocate_frozen_commission}
use sim_trade.Positions.Pnl.{calculate, calculate_close}
use sim_trade.Fees.Buckets.{
  calculate_bucket_allocations, add_index, same_key, volume_at, total_volume_of, bucket_shares,
  write_shares, FeeBucketKey, Bucket, group_entries,
}
use sim_trade.Fees.Snapshot.{calculate_from_snapshot}
use sim_trade.Fees.Buckets.Conservation.{bucket_fees}
use sim_trade.Orders.Allocations.{active}
use sim_trade.Settlement.Rows.{AllocationRow, LotRow, open_detail}
use sim_trade.Settlement.Consumption.{Fill, CloseConsumption, entry_of, consumptions_of}
use sim_trade.Settlement.Consumption.Laws.{IsUsable, IsShare, volume_of}
use sim_trade.Settlement.Consumption.Effects.{commission_of}
use sim_trade.Settlement.Consumption.Writes.{consumptions_of_fees}

abbrev lot : ℕ → ℤ → LotRow
lot id volume = record {
  position_detail_id = id;
  position_id = 21;
  account_id = 31;
  exchange_id = 41;
  symbol = 51;
  direction = some long;
  open_trading_day = 6;
  remaining_volume = volume;
  frozen_volume = volume;
  remaining_margin = pos 9000000;
  realtime_required_margin = pos 0;
  open_price = of_int (pos 100);
  pnl_base_price = of_int (pos 101);
  original_volume = volume;
  open_margin = pos 9000000;
  initial_occupied_margin = pos 9000000;
  open_commission = pos 0;
  multiplier_snapshot = of_int (pos 10);
  status = open_detail;
}

-- A commission of 3 for each lot.
abbrev key : FeeBucketKey (Option CommissionType)
key = record {
  resolved_offset_flag = close_yesterday;
  commission_type = some by_volume;
  commission_parameter = of_int (pos 3);
  commission_contract_multiplier = of_int (pos 10);
}

abbrev frozen : ℕ → ℕ → ℤ → Money → AllocationRow
frozen id detail volume commission = record {
  allocation_id = id;
  order_id = 61;
  position_id = 21;
  account_id = 31;
  exchange_id = 41;
  symbol = 51;
  position_detail_id = detail;
  key = key;
  original_frozen_volume = volume;
  remaining_frozen_volume = volume;
  consumed_volume = pos 0;
  released_volume = pos 0;
  original_frozen_commission = commission;
  remaining_frozen_commission = commission;
  consumed_commission = pos 0;
  released_commission = pos 0;
  status = active;
}

abbrev pub lots : List LotRow
lots = lot 1 (pos 4) ∷ lot 2 (pos 3) ∷ []

abbrev pub allocations : List AllocationRow
allocations = frozen 11 1 (pos 4) (pos 12000000) ∷ frozen 12 2 (pos 3) (pos 9000000) ∷ []

-- A sale at 105 of a long position.
abbrev pub fill_5 : Fill
fill_5 = record {
  is_option = false;
  order_direction = some sell;
  position_direction = some long;
  fill_price = of_int (pos 105);
  position_multiplier = of_int (pos 10);
  lots = lots;
}

-- 4 of the first lot and 1 of the second, before the commission is known.
abbrev first : Money → CloseConsumption
first commission = record {
  allocation = frozen 11 1 (pos 4) (pos 12000000);
  detail = lot 1 (pos 4);
  volume = pos 4;
  released_margin = pos 9000000;
  released_realtime_margin = pos 0;
  released_frozen_commission = pos 12000000;
  actual_commission = commission;
  realized_pnl = pos 200000000;
  daily_close_pnl = pos 160000000;
}

abbrev second : Money → CloseConsumption
second commission = record {
  allocation = frozen 12 2 (pos 3) (pos 9000000);
  detail = lot 2 (pos 3);
  volume = pos 1;
  released_margin = pos 3000000;
  released_realtime_margin = pos 0;
  released_frozen_commission = pos 3000000;
  actual_commission = commission;
  realized_pnl = pos 50000000;
  daily_close_pnl = pos 40000000;
}

abbrev pub consumptions : List CloseConsumption
consumptions = first (pos 12000000) ∷ second (pos 3000000) ∷ []

pub fill_of_5 : consumptions_of fill_5 allocations (pos 5) ≡ ok consumptions
unfolding consumptions_of ◌+ℤ◌ ◌-ℤ◌ ◌*ℤ◌ release_margin allocate_frozen_commission proportion
    quantize_ratio round_half_up calculate calculate_close quantize_money minus
    calculate_bucket_allocations add_index same_key volume_at total_volume_of bucket_shares
    write_shares calculate_from_snapshot
fill_of_5 = refl

pub allocations-AreUsable : All IsUsable allocations
allocations-AreUsable = (
  record { volume = omega arith; commission = omega arith },
  (record { volume = omega arith; commission = omega arith }, tt),
)

consumptions_of_fees_example :
    (volume_of consumptions ≡ pos 5)
    × All IsShare consumptions
    × ((grouped : List Bucket) × (group_entries (map entry_of consumptions) 0 [] ≡ ok grouped)
        × (bucket_fees (of_int (pos 105)) (map entry_of consumptions) grouped
            ≡ ok (commission_of consumptions)))
unfolding ◌+ℤ◌
consumptions_of_fees_example =
    consumptions_of_fees fill_5 allocations (pos 5) consumptions allocations-AreUsable (omega arith)
      (omega arith) fill_of_5
