-- ===== src/Fees/Buckets/Grouping.antt =====
-- What the grouping loop of the bucket allocation keeps: every index of an entry in one bucket.
use sim_trade.Prelude.{
  ℕ, suc, ◌+◌, ◌≡◌, inl, inr, Bool, ◌&&◌, ◌==◌, leb, ltb, List, [], ◌∷◌, ◌++◌, if◌then◌else◌,
  length, arith, Bool-cases, All,
}
use sim_trade.Prelude.Int.{pos, leb_ℤ, ◌<ℤ◌}
use sim_trade.Errors.{ok, raise_if, >>=-eq-ok, raise_if-eq-ok, ok-injective, invalid_fee_volume}
use sim_trade.Fees.Buckets.{
  FeeBucketEntry, NormalizedKey, Bucket, same_key, add_index, normalize, group_entries,
}

-- How often an index stands in a list, and in all buckets together.
abbrev pub occurs : ℕ → List ℕ → ℕ
occurs j [] = 0
occurs j (i ∷ rest) = (if j == i then 1 else 0) + occurs j rest

abbrev pub occurs_in : ℕ → List Bucket → ℕ
occurs_in j [] = 0
occurs_in j ((_, indices) ∷ rest) = occurs j indices + occurs_in j rest

occurs-append :
    (j i : ℕ) (xs : List ℕ) → occurs j (xs ++ i ∷ []) ≡ occurs j xs + (if j == i then 1 else 0)
occurs-append j i [] = omega arith
occurs-append j i (x ∷ xs) = omega (arith, occurs-append j i xs)

occurs_in-add_index :
    (j : ℕ) (k : NormalizedKey) (i : ℕ) (g : List Bucket)
    → occurs_in j (add_index k i g) ≡ occurs_in j g + (if j == i then 1 else 0)
unfolding add_index
occurs_in-add_index j k i [] = omega arith
occurs_in-add_index j k i ((k', is) ∷ g) = elim (Bool-cases (same_key k' k)) [
  | inl e ↦ rw e (omega (arith, occurs-append j i is))
  | inr e ↦ rw e (omega (arith, occurs_in-add_index j k i g))
]

-- The index `j` is one of `n` indices from `i` on.
abbrev pub in_range : ℕ → ℕ → ℕ → Bool
in_range j i n = leb i j && ltb j (i + n)

in_range_step :
    (j i n : ℕ)
    → (if j == i then 1 else 0) + (if in_range j (i + 1) n then 1 else 0)
      ≡ (if in_range j i (suc n) then 1 else 0)
in_range_step j i n = ground arith

-- An entry that passes the loop's tests.
abbrev pub HasVolume : FeeBucketEntry → Type 0
HasVolume e = pos 0 <ℤ e.volume

group_entries_step :
    (e : FeeBucketEntry) (rest : List FeeBucketEntry) (i : ℕ) (g g' : List Bucket)
    → group_entries (e ∷ rest) i g ≡ ok g'
    → HasVolume e × ((k : NormalizedKey) × (group_entries rest (i + 1) (add_index k i g) ≡ ok g'))
unfolding group_entries
group_entries_step e rest i g g' h =
    let (_, tested, h1) = >>=-eq-ok (raise_if (leb_ℤ e.volume (pos 0)) invalid_fee_volume) _ h in
    let (k, _, h2) = >>=-eq-ok (normalize e.key e.key.commission_type) _ h1 in
    let passed = raise_if-eq-ok (leb_ℤ e.volume (pos 0)) invalid_fee_volume tested in
    (ground arith, (k, h2))

occurs_in_done :
    (j i : ℕ) (g g' : List Bucket)
    → group_entries [] i g ≡ ok g'
    → occurs_in j g' ≡ occurs_in j g + (if in_range j i 0 then 1 else 0)
unfolding group_entries
occurs_in_done j i g g' h = let same = ok-injective h in rw (← same) (ground arith)

-- Grouping puts each index of the entries into the buckets once more, and no other.
pub group_entries-occurs :
    (j : ℕ) (es : List FeeBucketEntry) (i : ℕ) (g g' : List Bucket)
    → group_entries es i g ≡ ok g'
    → occurs_in j g' ≡ occurs_in j g + (if in_range j i (length es) then 1 else 0)
group_entries-occurs j [] i g g' h = occurs_in_done j i g g' h
group_entries-occurs j (e ∷ es) i g g' h =
    let (_, (k, h')) = group_entries_step e es i g g' h in
    omega (
      arith,
      group_entries-occurs j es (i + 1) (add_index k i g) g' h',
      occurs_in-add_index j k i g,
      in_range_step j i (length es),
    )

abbrev pub HasIndices : Bucket → Type 0
HasIndices (_, []) = ⊥
HasIndices (_, _ ∷ _) = Unit

HasIndices-append : (k : NormalizedKey) (is : List ℕ) (i : ℕ) → HasIndices (k, is ++ i ∷ [])
HasIndices-append k [] i = tt
HasIndices-append k (x ∷ is) i = tt

add_index-HasIndices :
    (k : NormalizedKey) (i : ℕ) (g : List Bucket)
    → All HasIndices g
    → All HasIndices (add_index k i g)
unfolding add_index
add_index-HasIndices k i [] h = (tt, tt)
add_index-HasIndices k i ((k', is) ∷ g) h = elim (Bool-cases (same_key k' k)) [
  | inl e ↦ rw e (HasIndices-append k' is i, h.1)
  | inr e ↦ rw e (h.0, add_index-HasIndices k i g h.1)
]

group_entries_done :
    (i : ℕ) (g g' : List Bucket)
    → All HasIndices g
    → group_entries [] i g ≡ ok g'
    → All HasIndices g'
unfolding group_entries
group_entries_done i g g' a h = rw (← ok-injective h) a

-- No bucket is empty.
pub group_entries-HasIndices :
    (es : List FeeBucketEntry) (i : ℕ) (g g' : List Bucket)
    → All HasIndices g
    → group_entries es i g ≡ ok g'
    → All HasIndices g'
group_entries-HasIndices [] i g g' a h = group_entries_done i g g' a h
group_entries-HasIndices (e ∷ es) i g g' a h =
    let (_, (k, h')) = group_entries_step e es i g g' h in
    group_entries-HasIndices es (i + 1) (add_index k i g) g' (add_index-HasIndices k i g a) h'

-- Every entry that is grouped has a positive volume.
pub group_entries-HasVolume :
    (es : List FeeBucketEntry) (i : ℕ) (g g' : List Bucket)
    → group_entries es i g ≡ ok g'
    → All HasVolume es
group_entries-HasVolume [] i g g' h = tt
group_entries-HasVolume (e ∷ es) i g g' h =
    let (positive, (k, h')) = group_entries_step e es i g g' h in
    (positive, group_entries-HasVolume es (i + 1) (add_index k i g) g' h')
