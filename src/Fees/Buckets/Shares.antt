-- ===== src/Fees/Buckets/Shares.antt =====
-- The shares of one bucket: they add up to the bucket's fee, and none is negative.
use sim_trade.Prelude.{ℕ, zero, suc, ◌≡◌, refl, ap, List, [], ◌∷◌, length, arith, All}
use sim_trade.Prelude.Int.{
  ℤ, pos, pos_part, neg_part, ◌+ℤ◌, ◌-ℤ◌, ◌≤ℤ◌, ◌<ℤ◌, eq_of_parts, int_laws,
}
use sim_trade.Money.{Money, proportion}
use sim_trade.Money.Proportion.{proportion_mono, proportion_whole, proportion_nonneg}
use sim_trade.Fees.Buckets.{FeeBucketEntry, volume_at, total_volume_of, bucket_shares}
use sim_trade.Fees.Buckets.Grouping.{HasVolume}

abbrev pub sum_money : List Money → Money
sum_money [] = pos 0
sum_money (m ∷ rest) = m +ℤ sum_money rest

le_of_pos : (a : ℤ) → pos 0 <ℤ a → pos 0 ≤ℤ a
le_of_pos a h = omega arith

module _ (entries : List FeeBucketEntry) (commission : Money) (total : ℤ) where
  pub length-bucket_shares :
      (is : List ℕ) (allocated : Money) (cumulative : ℤ)
      → length (bucket_shares entries commission total is allocated cumulative) ≡ length is
  unfolding bucket_shares
  length-bucket_shares [] a c = refl
  length-bucket_shares (i ∷ []) a c = refl
  length-bucket_shares (i ∷ j ∷ is) a c =
      let c' = c +ℤ volume_at entries i in
      ap suc (length-bucket_shares (j ∷ is) (proportion commission c' total) c')

  -- The last share takes what is left of the fee, so nothing is lost or made by rounding.
  pub sum_money-bucket_shares :
      (i : ℕ) (is : List ℕ) (allocated : Money) (cumulative : ℤ)
      → sum_money (bucket_shares entries commission total (i ∷ is) allocated cumulative)
        ≡ commission -ℤ allocated
  unfolding bucket_shares
  sum_money-bucket_shares i [] a c = omega int_laws
  sum_money-bucket_shares i (j ∷ is) a c =
      let c' = c +ℤ volume_at entries i in
      rw (sum_money-bucket_shares j is (proportion commission c' total) c') (omega int_laws)

volume_at_nonneg :
    (entries : List FeeBucketEntry) (i : ℕ) → All HasVolume entries → pos 0 ≤ℤ volume_at entries i
unfolding volume_at
volume_at_nonneg [] i h = omega arith
volume_at_nonneg (e ∷ es) zero h = le_of_pos e.volume h.0
volume_at_nonneg (e ∷ es) (suc i) h = volume_at_nonneg es i h.1

total_volume_of_nonneg :
    (entries : List FeeBucketEntry) (is : List ℕ)
    → All HasVolume entries
    → pos 0 ≤ℤ total_volume_of entries is
unfolding total_volume_of
total_volume_of_nonneg entries [] h = omega arith
total_volume_of_nonneg entries (i ∷ is) h =
    omega (int_laws, volume_at_nonneg entries i h, total_volume_of_nonneg entries is h)

module _ (entries : List FeeBucketEntry) (commission : Money) (total : ℤ) where
  shares_nonneg :
      All HasVolume entries
      → pos 0 ≤ℤ commission
      → pos 0 <ℤ total
      → (is : List ℕ) (allocated : Money) (cumulative : ℤ) → pos 0 ≤ℤ cumulative
      → allocated ≤ℤ proportion commission cumulative total
      → cumulative +ℤ total_volume_of entries is ≡ total
      → All (λ m. pos 0 ≤ℤ m) (bucket_shares entries commission total is allocated cumulative)
  unfolding bucket_shares total_volume_of
  shares_nonneg hv hc ht [] a c h0 ha e = tt
  shares_nonneg hv hc ht (i ∷ []) a c h0 ha e = (
    omega (
      int_laws,
      volume_at_nonneg entries i hv,
      proportion_mono commission total c total hc h0
          (omega (int_laws, volume_at_nonneg entries i hv, ap pos_part e, ap neg_part e)) ht,
      ap pos_part (proportion_whole commission total hc ht),
      ap neg_part (proportion_whole commission total hc ht),
    ),
    tt,
  )
  shares_nonneg hv hc ht (i ∷ j ∷ is) a c h0 ha e =
      let v = volume_at_nonneg entries i hv in
      let c' = c +ℤ volume_at entries i in
      let w = total_volume_of_nonneg entries (j ∷ is) hv in
      (
        omega (int_laws, v, proportion_mono commission total c c' hc h0 (omega (int_laws, v)) ht),
        shares_nonneg hv hc ht (j ∷ is) (proportion commission c' total) c' (omega (int_laws, v))
            (omega arith) (eq_of_parts _ _ (omega (int_laws, ap pos_part e, ap neg_part e))),
      )

-- The shares of a whole bucket with a fee that is not negative are not negative.
pub bucket_shares_nonneg :
    (entries : List FeeBucketEntry) (commission : Money) (is : List ℕ)
    → All HasVolume entries
    → pos 0 ≤ℤ commission
    → pos 0 <ℤ total_volume_of entries is
    → All
        (λ m. pos 0 ≤ℤ m)
        (bucket_shares entries commission (total_volume_of entries is) is (pos 0) (pos 0))
bucket_shares_nonneg entries commission is hv hc ht =
    shares_nonneg entries commission (total_volume_of entries is) hv hc ht is (pos 0) (pos 0)
      (omega arith)
      (proportion_nonneg commission (pos 0) (total_volume_of entries is) hc (omega arith) ht)
      (eq_of_parts _ _ (omega int_laws))
