-- ===== src/Settlement/Consumption/Effects.antt =====
-- The commissions of a fill, and what its consumptions write.
use sim_trade.Prelude.{ℕ, ◌≡◌, ◌∙◌, refl, ap, not, List, [], ◌∷◌, map, All}
use sim_trade.Prelude.Int.{ℤ, pos, ◌+ℤ◌, ◌≤ℤ◌, eqb_ℤ}
use sim_trade.Errors.{ok, raise_if, Ensures, ok-Ensures, >>=-Ensures, >>-Ensures}
use sim_trade.Money.{Money}
use sim_trade.Fees.Buckets.{FeeBucketEntry, Bucket, group_entries, calculate_bucket_allocations}
use sim_trade.Fees.Buckets.Shares.{sum_money}
use sim_trade.Fees.Buckets.Conservation.{bucket_fees, calculate_bucket_allocations_conserves}
use sim_trade.Settlement.Rows.{AllocationRow, LotRow}
use sim_trade.Settlement.Tables.{total, count, count-update}
use sim_trade.Settlement.Consumption.{
  Fill, CloseConsumption, consume, entry_of, with_commissions, consumptions_of, consumed_allocation,
  consume_allocations,
}
use sim_trade.Settlement.Consumption.Lots.{taken_from, frozen_in, consume-Within}
use sim_trade.Settlement.Consumption.Laws.{
  HoldsOf, IsUsable, IsShare, frozen_volume_of, volume_of, consume-Taken,
}

abbrev pub commission_of : List CloseConsumption → Money
commission_of [] = pos 0
commission_of (c ∷ rest) = c.actual_commission +ℤ commission_of rest

-- The commissions are written into the consumptions, and nothing else is.
record IsPriced (P : AllocationRow → LotRow → Type 0) (cs : List CloseConsumption)
    (shares : List Money) (out : List CloseConsumption) : Type 0 where
  entries : map entry_of out ≡ map entry_of cs
  commission : commission_of out ≡ sum_money shares
  volume : volume_of out ≡ volume_of cs
  places : (key : ℕ) → total (taken_from key) out ≡ total (taken_from key) cs
  parts : All IsShare out
  kept : All (λ c. P c.allocation c.detail) out

with_commissions-IsPriced :
    (P : AllocationRow → LotRow → Type 0) (cs : List CloseConsumption) (shares : List Money)
    → All IsShare cs
    → All (λ c. P c.allocation c.detail) cs
    → Ensures (IsPriced P cs shares) (with_commissions cs shares)
unfolding with_commissions
with_commissions-IsPriced P [] [] h k = ok-Ensures (IsPriced P [] []) [] record {
  entries = refl;
  commission = refl;
  volume = refl;
  places = λ key. refl;
  parts = tt;
  kept = tt;
}
with_commissions-IsPriced P [] (s ∷ rest) h k = record { ensured = λ e. absurd cc }
with_commissions-IsPriced P (c ∷ cs) [] h k = record { ensured = λ e. absurd cc }
with_commissions-IsPriced P (c ∷ cs) (s ∷ rest) (hc, h) (kc, k) =
    >>=-Ensures (with_commissions cs rest) (λ done e.
      let q = (with_commissions-IsPriced P cs rest h k).ensured e in
      ok-Ensures (IsPriced P (c ∷ cs) (s ∷ rest)) _ record {
        entries = ap (λ (es : List FeeBucketEntry). entry_of c ∷ es) q.entries;
        commission = ap (λ (m : Money). s +ℤ m) q.commission;
        volume = ap (λ (v : ℤ). c.volume +ℤ v) q.volume;
        places = λ key. ap (λ (v : ℤ). taken_from key c +ℤ v) (q.places key);
        parts = (
          record {
            positive = hc.positive;
            of_allocation = hc.of_allocation;
            of_lot = hc.of_lot;
            margin = hc.margin;
            commission = hc.commission;
          },
          q.parts,
        );
        kept = (kc, q.kept);
      })

-- What the consumptions of a fill are.
pub record IsSettling (f : Fill) (allocations : List AllocationRow)
    (P : AllocationRow → LotRow → Type 0) (n : ℤ) (cs : List CloseConsumption) : Type 0 where
  pub volume : volume_of cs ≡ n
  pub within : (key : ℕ) → total (taken_from key) cs ≤ℤ total (frozen_in key) allocations
  pub parts : All IsShare cs
  pub kept : All (λ c. P c.allocation c.detail) cs
  pub buckets : List Bucket
  pub grouped : group_entries (map entry_of cs) 0 [] ≡ ok buckets
  pub fees : bucket_fees f.fill_price (map entry_of cs) buckets ≡ ok (commission_of cs)

pub consumptions_of-IsSettling :
    (P : AllocationRow → LotRow → Type 0) (f : Fill) (allocations : List AllocationRow) (n : ℤ)
    → HoldsOf P f.lots allocations
    → All IsUsable allocations
    → pos 0 ≤ℤ n
    → n ≤ℤ frozen_volume_of allocations
    → Ensures (IsSettling f allocations P n) (consumptions_of f allocations n)
unfolding consumptions_of
consumptions_of-IsSettling P f allocations n k h low high =
    >>=-Ensures (consume f allocations n) (λ found e.
      let (_, sum, shares, kept) = (consume-Taken P f allocations n k h low high).ensured e in
      >>-Ensures (raise_if (not (eqb_ℤ found.0 (pos 0))) _) (λ _.
        >>=-Ensures (calculate_bucket_allocations f.fill_price (map entry_of found.1))
          (λ commissions ec.
            let (_, _, (buckets, grouped, fees)) =
              calculate_bucket_allocations_conserves f.fill_price (map entry_of found.1) commissions
                ec in
            record {
              ensured = λ ew.
                  let q =
                    (with_commissions-IsPriced P found.1 commissions shares kept).ensured ew in
                  record {
                    volume = q.volume ∙ sum;
                    within = λ key.
                        rw (q.places key)
                          ((consume-Within f key allocations n h low high).ensured e);
                    parts = q.parts;
                    kept = q.kept;
                    buckets = buckets;
                    grouped = rw q.entries grouped;
                    fees = rw (q.entries, q.commission) fees;
                  };
            })))

-- How often an identifier stands in the table.
abbrev pub occurrences : ℕ → List AllocationRow → ℕ
occurrences = count (λ a. a.allocation_id)

pub occurrences-consume_allocations :
    (key : ℕ) (c : CloseConsumption) (allocations : List AllocationRow)
    → occurrences key (consume_allocations c allocations) ≡ occurrences key allocations
unfolding consume_allocations consumed_allocation
occurrences-consume_allocations key c =
    count-update (λ a. a.allocation_id) (λ a. a.allocation_id) key c.allocation.allocation_id
      (consumed_allocation c) (λ a. refl)
