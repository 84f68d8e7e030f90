-- ===== src/Positions/CloseAllocator/Order.antt =====
-- The candidates of each close flag: sorted by id, yesterday's lots first, and nothing lost.
use sim_trade.Prelude.{
  ℕ, ◌≤◌, ◌≡◌, inl, inr, refl, Bool, true, false, List, [], ◌∷◌, ◌++◌, arith, All, leb,
  if◌then◌else◌, Bool-cases, ◌∙◌,
}
use sim_trade.Prelude.Int.{ℤ, pos, ◌+ℤ◌, int_laws, ltb_ℤ}
use sim_trade.Enums.{OffsetFlag, open_flag, close_flag, close_today, close_yesterday}
use sim_trade.Positions.CloseAllocator.{
  Detail, free_volume, insert_by_id, sort_by_id, select, opened_before, opened_on,
}
use sim_trade.Positions.CloseAllocator.Greedy.{IsAvailable, sum_free}

-- The details that a close flag may take from.
abbrev pub may_close : OffsetFlag → ℕ → Detail → Bool
may_close close_today day d = opened_on day d
may_close close_yesterday day d = opened_before day d
may_close close_flag day d = leb d.open_trading_day day
may_close open_flag day d = false

-- The free volume of the details that pass a test.
unfoldable pub available_volume : (Detail → Bool) → List Detail → ℤ
available_volume test [] = pos 0
available_volume test (d ∷ rest) =
    (if test d then (if ltb_ℤ (pos 0) (free_volume d) then free_volume d else pos 0) else pos 0)
    +ℤ available_volume test rest

sum_free-insert :
    (d : Detail) (ds : List Detail) → sum_free (insert_by_id d ds) ≡ free_volume d +ℤ sum_free ds
unfolding insert_by_id sum_free
sum_free-insert d [] = refl
sum_free-insert d (e ∷ ds) = elim (Bool-cases (leb d.id e.id)) [
  | inl le ↦ rw le refl
  | inr gt ↦ rw (gt, sum_free-insert d ds) (omega int_laws)
]

pub sum_free-sort : (ds : List Detail) → sum_free (sort_by_id ds) ≡ sum_free ds
unfolding sort_by_id sum_free
sum_free-sort [] = refl
sum_free-sort (d ∷ ds) = sum_free-insert d (sort_by_id ds) ∙ (rw (sum_free-sort ds) refl)

pub sum_free-append : (xs ys : List Detail) → sum_free (xs ++ ys) ≡ sum_free xs +ℤ sum_free ys
unfolding sum_free
sum_free-append [] ys = omega int_laws
sum_free-append (x ∷ xs) ys = rw (sum_free-append xs ys) (omega int_laws)

pub sum_free-select :
    (test : Detail → Bool) (ds : List Detail) → sum_free (select test ds) ≡ available_volume test ds
unfolding select sum_free available_volume
sum_free-select test [] = refl
sum_free-select test (d ∷ ds) =
    let ih = sum_free-select test ds in
    elim (Bool-cases (test d)) [
      | inr skip ↦ elim (Bool-cases (ltb_ℤ (pos 0) (free_volume d))) [
        | inl free ↦ rw (free, skip, ih) (omega int_laws)
        | inr full ↦ rw (full, skip, ih) (omega int_laws)
      ]
      | inl take ↦ elim (Bool-cases (ltb_ℤ (pos 0) (free_volume d))) [
        | inl free ↦ rw (free, take, ih) refl
        | inr full ↦ rw (full, take, ih) (omega int_laws)
      ]
    ]

-- Sorting and selecting keep what holds of every detail.
module _ (P : Detail → Type 0) where
  All-insert : (d : Detail) (ds : List Detail) → P d → All P ds → All P (insert_by_id d ds)
  unfolding insert_by_id
  All-insert d [] h hs = (h, tt)
  All-insert d (e ∷ ds) h hs = elim (Bool-cases (leb d.id e.id)) [
    | inl le ↦ rw le (h, hs)
    | inr gt ↦ rw gt (hs.0, All-insert d ds h hs.1)
  ]

  pub All-sort : (ds : List Detail) → All P ds → All P (sort_by_id ds)
  unfolding sort_by_id
  All-sort [] h = tt
  All-sort (d ∷ ds) h = All-insert d (sort_by_id ds) h.0 (All-sort ds h.1)

-- An available detail that passes the test.
abbrev pub IsSelected : (Detail → Bool) → Detail → Type 0
IsSelected test d = IsAvailable d × (test d ≡ true)

pub All-select : (test : Detail → Bool) (ds : List Detail) → All (IsSelected test) (select test ds)
unfolding select
All-select test [] = tt
All-select test (d ∷ ds) = elim (Bool-cases (ltb_ℤ (pos 0) (free_volume d))) [
  | inr full ↦ rw full (All-select test ds)
  | inl free ↦ elim (Bool-cases (test d)) [
    | inl take ↦ rw (free, take) ((ground arith, take), All-select test ds)
    | inr skip ↦ rw (free, skip) (All-select test ds)
  ]
]

-- Sorted by id.
abbrev pub IsSorted : List Detail → Type 0
IsSorted [] = Unit
IsSorted (d ∷ ds) = All (λ e. d.id ≤ e.id) ds × IsSorted ds

All-weaken : (k n : ℕ) (ds : List Detail) → k ≤ n → All (λ e. n ≤ e.id) ds → All (λ e. k ≤ e.id) ds
All-weaken k n [] h hs = tt
All-weaken k n (d ∷ ds) h hs = (omega (arith, hs.0), All-weaken k n ds h hs.1)

insert-IsSorted : (d : Detail) (ds : List Detail) → IsSorted ds → IsSorted (insert_by_id d ds)
unfolding insert_by_id
insert-IsSorted d [] h = (tt, tt)
insert-IsSorted d (e ∷ ds) h = elim (Bool-cases (leb d.id e.id)) [
  | inl le ↦
      let first : d.id ≤ e.id = ground arith in
      rw le ((first, All-weaken d.id e.id ds first h.0), h)
  | inr gt ↦
      let last : e.id ≤ d.id = ground arith in
      rw gt (All-insert (λ x. e.id ≤ x.id) d ds last h.0, insert-IsSorted d ds h.1)
]

pub sort-IsSorted : (ds : List Detail) → IsSorted (sort_by_id ds)
unfolding sort_by_id
sort-IsSorted [] = tt
sort-IsSorted (d ∷ ds) = insert-IsSorted d (sort_by_id ds) (sort-IsSorted ds)
