-- ===== src/Fees/Buckets/Conservation.antt =====
-- The allocation as a whole: the shares of the entries add up to the fees of the buckets.
use sim_trade.Prelude.{
  ℕ, zero, suc, ◌≤◌, ◌<◌, ◌≡◌, ◌∙◌, refl, sym, ap, some, List, [], ◌∷◌, length, get_elem?, map,
  arith, All,
}
use sim_trade.Prelude.Int.{pos, ◌+ℤ◌, ◌<ℤ◌, int_laws}
use sim_trade.Errors.{Result, ok, ◌>>=◌, >>=-eq-ok, ok-injective}
use sim_trade.Money.{Decimal, Money}
use sim_trade.Fees.Snapshot.Laws.{calculate_from_snapshot_iff, calculate_from_snapshot_nonneg}
use sim_trade.Fees.Buckets.{
  FeeBucketEntry, Bucket, total_volume_of, bucket_shares, bucket_fee, write_bucket, group_entries,
  allocate_buckets, calculate_bucket_allocations,
}
use sim_trade.Fees.Buckets.Grouping.{
  occurs_in, HasIndices, HasVolume, group_entries-occurs, group_entries-HasIndices,
  group_entries-HasVolume,
}
use sim_trade.Fees.Buckets.Writes.{
  NonNegative, get_elem?-write_shares, sum_money-write_shares, write_shares-NonNegative,
  length-write_shares,
}
use sim_trade.Fees.Buckets.Shares.{
  sum_money, length-bucket_shares, sum_money-bucket_shares, bucket_shares_nonneg,
}

-- A bucket whose fee was computed has a positive volume and a fee that is not negative.
bucket_fee_accepts :
    (price : Decimal) (entries : List FeeBucketEntry) (b : Bucket) (fee : Money)
    → bucket_fee price entries b ≡ ok fee
    → NonNegative fee × (pos 0 <ℤ total_volume_of entries b.1)
unfolding bucket_fee
bucket_fee_accepts price entries (k, is) fee h =
    let volume = total_volume_of entries is in
    let (a, _) =
      (calculate_from_snapshot_iff price volume k.commission_type k.commission_parameter
          k.commission_contract_multiplier fee).0
        h in
    (
      calculate_from_snapshot_nonneg price volume k.commission_type k.commission_parameter
          k.commission_contract_multiplier fee h,
      a.volume_pos,
    )

-- The fees of the buckets, each computed once, and added up.
pub bucket_fees : Decimal → List FeeBucketEntry → List Bucket → Result Money
bucket_fees price entries [] = ok (pos 0)
bucket_fees price entries (b ∷ rest) = do
  fee ← bucket_fee price entries b
  others ← bucket_fees price entries rest
  ok (fee +ℤ others)

-- A list of results in which every index that the buckets name still holds a zero.
record IsFresh (bs : List Bucket) (r : List Money) : Type 0 where
  named : All HasIndices bs
  once : (j : ℕ) → occurs_in j bs ≤ 1
  zeros : (j : ℕ) → 1 ≤ occurs_in j bs → get_elem? r j ≡ some (pos 0)

module _ (price : Decimal) (entries : List FeeBucketEntry) where
  sum_money-write_bucket :
      (b : Bucket) (bs : List Bucket) (commission : Money) (r : List Money)
      → IsFresh (b ∷ bs) r
      → sum_money (write_bucket entries b.1 commission r) ≡ sum_money r +ℤ commission
  unfolding write_bucket
  sum_money-write_bucket (k, []) bs commission r f = absurd f.named.0
  sum_money-write_bucket (k, i ∷ is) bs commission r f =
      let total = total_volume_of entries (i ∷ is) in
      let shares = bucket_shares entries commission total (i ∷ is) (pos 0) (pos 0) in
      let written =
        sum_money-write_shares (i ∷ is) shares r
          (length-bucket_shares entries commission total (i ∷ is) (pos 0) (pos 0))
          (λ j. omega (arith, f.once j)) (λ j m. f.zeros j (omega arith)) in
      let whole = sum_money-bucket_shares entries commission total i is (pos 0) (pos 0) in
      written ∙ (rw whole (omega int_laws))

  write_bucket-IsFresh :
      (b : Bucket) (bs : List Bucket) (commission : Money) (r : List Money)
      → IsFresh (b ∷ bs) r
      → IsFresh bs (write_bucket entries b.1 commission r)
  unfolding write_bucket
  write_bucket-IsFresh (k, is) bs commission r f = record {
    named = f.named.1;
    once = λ j. omega (arith, f.once j);
    zeros =
        λ j m. get_elem?-write_shares is _ r j (omega (arith, f.once j)) ∙ f.zeros j (omega arith);
  }

  write_bucket-NonNegative :
      (b : Bucket) (commission : Money) (r : List Money)
      → All HasVolume entries
      → bucket_fee price entries b ≡ ok commission
      → All NonNegative r
      → All NonNegative (write_bucket entries b.1 commission r)
  unfolding write_bucket
  write_bucket-NonNegative b commission r hv e hr =
      let (fee, volume) = bucket_fee_accepts price entries b commission e in
      write_shares-NonNegative b.1 _ r (bucket_shares_nonneg entries commission b.1 hv fee volume)
        hr

  length-write_bucket :
      (b : Bucket) (commission : Money) (r : List Money)
      → length (write_bucket entries b.1 commission r) ≡ length r
  unfolding write_bucket
  length-write_bucket b commission r = length-write_shares b.1 _ r

  allocate_buckets_sums :
      (bs : List Bucket) (r r' : List Money)
      → All HasVolume entries
      → IsFresh bs r
      → All NonNegative r
      → allocate_buckets price entries bs r ≡ ok r'
      → (fees : Money) × (bucket_fees price entries bs ≡ ok fees)
        × (sum_money r' ≡ sum_money r +ℤ fees)
        × All NonNegative r'
        × (length r' ≡ length r)
  unfolding allocate_buckets bucket_fees
  allocate_buckets_sums [] r r' hv f hr h =
      let same = ok-injective h in
      (pos 0, refl, rw (← same) (omega int_laws), rw (← same) hr, ap length (sym same))
  allocate_buckets_sums (b ∷ bs) r r' hv f hr h =
      let (commission, e, h') = >>=-eq-ok (bucket_fee price entries b) _ h in
      let w = write_bucket entries b.1 commission r in
      let (fees, ef, es, hn, hl) =
        allocate_buckets_sums bs w r' hv (write_bucket-IsFresh b bs commission r f)
          (write_bucket-NonNegative b commission r hv e hr) h' in
      (
        commission +ℤ fees,
        rw (e, ef) refl,
        es ∙ (rw (sum_money-write_bucket b bs commission r f) (omega int_laws)),
        hn,
        hl ∙ length-write_bucket b commission r,
      )

zero_list : (entries : List FeeBucketEntry) → List Money
zero_list entries = map (λ _. pos 0) entries

at_index :
    (es : List FeeBucketEntry)
    → ((j : ℕ) → j < length es → get_elem? (zero_list es) j ≡ some (pos 0))
    → (j : ℕ) → j < suc (length es)
    → get_elem? (pos 0 ∷ zero_list es) j ≡ some (pos 0)
at_index es z zero h = refl
at_index es z (suc j) h = z j (omega arith)

zero_list_facts :
    (entries : List FeeBucketEntry)
    → (sum_money (zero_list entries) ≡ pos 0)
      × All NonNegative (zero_list entries)
      × (length (zero_list entries) ≡ length entries)
      × ((j : ℕ) → j < length entries → get_elem? (zero_list entries) j ≡ some (pos 0))
unfolding zero_list
zero_list_facts [] = (refl, tt, refl, λ j h. absurd (omega arith))
zero_list_facts (e ∷ es) =
    let (s, n, l, z) = zero_list_facts es in
    (rw s (omega int_laws), (omega arith, n), ap suc l, at_index es z)

grouped-IsFresh :
    (entries : List FeeBucketEntry) (grouped : List Bucket)
    → group_entries entries 0 [] ≡ ok grouped
    → IsFresh grouped (zero_list entries)
grouped-IsFresh entries grouped h =
    let (_, _, _, zeros) = zero_list_facts entries in
    let occurs_once = λ (j : ℕ). group_entries-occurs j entries 0 [] grouped h in
    record {
      named = group_entries-HasIndices entries 0 [] grouped tt h;
      once = λ j. ground (arith, occurs_once j);
      zeros = λ j m. zeros j (ground (arith, occurs_once j));
    }

-- When the allocation returns, it has one share for each entry, no share is negative, and the shares
-- add up to the fees of the buckets that the entries were grouped into.
pub calculate_bucket_allocations_conserves :
    (price : Decimal) (entries : List FeeBucketEntry) (shares : List Money)
    → calculate_bucket_allocations price entries ≡ ok shares
    → (length shares ≡ length entries)
      × All NonNegative shares
      × ((grouped : List Bucket) × (group_entries entries 0 [] ≡ ok grouped)
          × (bucket_fees price entries grouped ≡ ok (sum_money shares)))
unfolding calculate_bucket_allocations
calculate_bucket_allocations_conserves price entries shares h =
    let (grouped, eg, h') = >>=-eq-ok (group_entries entries 0 []) _ h in
    let (s0, n0, l0, _) = zero_list_facts entries in
    let (fees, ef, es, hn, hl) =
      allocate_buckets_sums price entries grouped (zero_list entries) shares
        (group_entries-HasVolume entries 0 [] grouped eg) (grouped-IsFresh entries grouped eg) n0
        (unfold zero_list in h') in
    let sums : fees ≡ sum_money shares = sym (rw s0 at es ∙ (omega int_laws)) in
    (hl ∙ l0, hn, (grouped, eg, ef ∙ ap ok sums))
