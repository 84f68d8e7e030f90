-- ===== src/Fees/Buckets.antt =====
-- `FeeCalculator.calculate_bucket_allocations`: entries are grouped by their normalized key, the fee
-- of a group is computed once, and it is shared out by cumulative volume.
pub mod Grouping
pub mod Shares
pub mod Writes
pub mod Conservation
mod Tests
use sim_trade.Prelude.{
  ℕ, zero, suc, ◌+◌, ◌*◌, ◌^◌, Bool, true, false, ◌&&◌, Option, none, some, List, [], ◌∷◌, ◌++◌,
  get_elem?, set, map, if◌then◌else◌,
}
use sim_trade.Prelude.Int.{ℤ, pos, pos_part, ◌+ℤ◌, ◌-ℤ◌, ◌*ℤ◌, leb_ℤ, eqb_ℤ}
use sim_trade.Errors.{
  Result, ok, err, ◌>>=◌, ◌>>◌, raise_if, invalid_fee_volume, unsupported_commission_type,
}
use sim_trade.Enums.{OffsetFlag, CommissionType, same_offset, same_commission}
use sim_trade.Money.{Decimal, Money, proportion, same_decimal}
use sim_trade.Fees.Snapshot.{calculate_from_snapshot}

-- The grouping key. An entry has the type's text, which may name no member.
pub record FeeBucketKey (T : Type 0) : Type 0 where
  pub resolved_offset_flag : OffsetFlag
  pub commission_type : T
  pub commission_parameter : Decimal
  pub commission_contract_multiplier : Decimal

pub record FeeBucketEntry : Type 0 where
  pub key : FeeBucketKey (Option CommissionType)
  pub volume : ℤ

abbrev pub NormalizedKey : Type 0
NormalizedKey = FeeBucketKey CommissionType

-- Two `Decimal`s are equal, and hash alike, by value.
-- So the equality of the frozen dataclass, by which the dict finds a bucket.
unfoldable pub same_key : NormalizedKey → NormalizedKey → Bool
same_key a b =
    same_offset a.resolved_offset_flag b.resolved_offset_flag
    && (same_commission a.commission_type b.commission_type
        && (same_decimal a.commission_parameter b.commission_parameter
            && same_decimal a.commission_contract_multiplier b.commission_contract_multiplier))

-- An item of `grouped_indices`.
abbrev pub Bucket : Type 0
Bucket = NormalizedKey × List ℕ

-- `grouped_indices.setdefault(normalized_key, []).append(index)`
unfoldable pub add_index : NormalizedKey → ℕ → List Bucket → List Bucket
add_index k i [] = (k, i ∷ []) ∷ []
add_index k i ((j, indices) ∷ rest) =
    if same_key j k then (j, indices ++ i ∷ []) ∷ rest else (j, indices) ∷ add_index k i rest

normalize : FeeBucketKey (Option CommissionType) → Option CommissionType → Result NormalizedKey
normalize k none = err unsupported_commission_type
normalize k (some t) = ok (record {
  resolved_offset_flag = k.resolved_offset_flag;
  commission_type = t;
  commission_parameter = k.commission_parameter;
  commission_contract_multiplier = k.commission_contract_multiplier;
})

-- The first loop, from `index` on.
pub group_entries : List FeeBucketEntry → ℕ → List Bucket → Result (List Bucket)
unfolding normalize
group_entries [] index grouped = ok grouped
group_entries (e ∷ rest) index grouped = do
  raise_if (leb_ℤ e.volume (pos 0)) invalid_fee_volume
  k ← normalize e.key e.key.commission_type
  group_entries rest (index + 1) (add_index k index grouped)

-- `entries[index].volume`; every index that is grouped is in range.
unfoldable pub volume_at : List FeeBucketEntry → ℕ → ℤ
volume_at entries i = elim (get_elem? entries i) [ none ↦ pos 0 | some e ↦ e.volume ]

unfoldable pub total_volume_of : List FeeBucketEntry → List ℕ → ℤ
total_volume_of entries [] = pos 0
total_volume_of entries (i ∷ rest) = volume_at entries i +ℤ total_volume_of entries rest

-- The shares of one bucket, by position: the last takes what is left.
unfoldable pub bucket_shares : List FeeBucketEntry → Money → ℤ → List ℕ → Money → ℤ → List Money
bucket_shares entries commission total [] allocated cumulative = []
bucket_shares entries commission total (i ∷ []) allocated cumulative =
    (commission -ℤ allocated) ∷ []
bucket_shares entries commission total (i ∷ j ∷ rest) allocated cumulative =
    let cumulative' = cumulative +ℤ volume_at entries i in
    let amount = proportion commission cumulative' total in
    (amount -ℤ allocated) ∷ bucket_shares entries commission total (j ∷ rest) amount cumulative'

-- `result[index] = share`, along the indices of a bucket
unfoldable pub write_shares : List ℕ → List Money → List Money → List Money
write_shares [] shares result = result
write_shares (i ∷ rest) [] result = result
write_shares (i ∷ rest) (s ∷ shares) result = write_shares rest shares (set result i s)

pub bucket_fee : Decimal → List FeeBucketEntry → Bucket → Result Money
bucket_fee price entries (k, indices) =
    calculate_from_snapshot price (total_volume_of entries indices) (some k.commission_type)
      k.commission_parameter k.commission_contract_multiplier

write_bucket : List FeeBucketEntry → List ℕ → Money → List Money → List Money
unfolding bucket_shares write_shares
write_bucket entries indices commission result =
    write_shares indices
      (bucket_shares entries commission (total_volume_of entries indices) indices (pos 0) (pos 0))
      result

-- The second loop, over the buckets.
pub allocate_buckets :
    Decimal → List FeeBucketEntry → List Bucket → List Money → Result (List Money)
unfolding bucket_fee write_bucket
allocate_buckets price entries [] result = ok result
allocate_buckets price entries (b ∷ rest) result = do
  commission ← bucket_fee price entries b
  allocate_buckets price entries rest (write_bucket entries b.1 commission result)

unfoldable pub calculate_bucket_allocations : Decimal → List FeeBucketEntry → Result (List Money)
unfolding group_entries allocate_buckets
calculate_bucket_allocations price entries = do
  grouped ← group_entries entries 0 []
  allocate_buckets price entries grouped (map (λ _. pos 0) entries)
