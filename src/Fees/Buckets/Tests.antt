-- ===== src/Fees/Buckets/Tests.antt =====
-- Two entries of one bucket whose fee of 0.000010 does not divide.
use sim_trade.Prelude.{◌≡◌, refl, Option, some, List, [], ◌∷◌, length, All}
use sim_trade.Prelude.Int.{pos, ◌+ℤ◌, ◌-ℤ◌, ◌*ℤ◌}
use sim_trade.Errors.{ok}
use sim_trade.Enums.{open_flag, CommissionType, by_volume}
use sim_trade.Money.{Money, of_int, quantize_money, proportion, quantize_ratio, round_half_up}
use sim_trade.Fees.Snapshot.{calculate_from_snapshot}
use sim_trade.Fees.Buckets.{
  FeeBucketKey, FeeBucketEntry, Bucket, add_index, same_key, total_volume_of, volume_at,
  group_entries, calculate_bucket_allocations,
}
use sim_trade.Fees.Buckets.Shares.{sum_money}
use sim_trade.Fees.Buckets.Writes.{NonNegative}
use sim_trade.Fees.Buckets.Conservation.{bucket_fees, calculate_bucket_allocations_conserves}

abbrev opening_key : FeeBucketKey (Option CommissionType)
opening_key = record {
  resolved_offset_flag = open_flag;
  commission_type = some by_volume;
  commission_parameter = record { coefficient = pos 3333333; places = 12 };
  commission_contract_multiplier = of_int (pos 10);
}

abbrev two_lots : List FeeBucketEntry
two_lots =
    record { key = opening_key; volume = pos 1 } ∷ record { key = opening_key; volume = pos 2 } ∷ []

abbrev two_shares : List Money
two_shares = pos 3 ∷ pos 7 ∷ []

two_lots_allocated : calculate_bucket_allocations (of_int (pos 10)) two_lots ≡ ok two_shares
unfolding add_index same_key total_volume_of volume_at calculate_bucket_allocations
    calculate_from_snapshot proportion quantize_money quantize_ratio round_half_up ◌*ℤ◌ ◌+ℤ◌ ◌-ℤ◌
two_lots_allocated = refl

calculate_bucket_allocations_conserves_example :
    (length two_shares ≡ length two_lots)
    × All NonNegative two_shares
    × ((grouped : List Bucket) × (group_entries two_lots 0 [] ≡ ok grouped)
        × (bucket_fees (of_int (pos 10)) two_lots grouped ≡ ok (sum_money two_shares)))
calculate_bucket_allocations_conserves_example =
    calculate_bucket_allocations_conserves (of_int (pos 10)) two_lots two_shares two_lots_allocated
