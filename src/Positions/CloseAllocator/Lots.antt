-- ===== src/Positions/CloseAllocator/Lots.antt =====
-- Which lots the candidates of a close flag are: how many of them pass a test, for every test.
use sim_trade.Prelude.{
  ℕ, ◌+◌, ◌≡◌, ◌∙◌, inl, inr, refl, Bool, ◌&&◌, List, [], ◌∷◌, ◌++◌, arith, leb, ltb, ◌==◌,
  Bool-cases, if◌then◌else◌,
}
use sim_trade.Prelude.Int.{pos, ltb_ℤ}
use sim_trade.Enums.{close_flag}
use sim_trade.Positions.CloseAllocator.{
  Detail, free_volume, insert_by_id, sort_by_id, select, opened_before, opened_on,
}
use sim_trade.Positions.CloseAllocator.Order.{may_close}

unfoldable pub count : (Detail → Bool) → List Detail → ℕ
count test [] = 0
count test (d ∷ rest) = (if test d then 1 else 0) + count test rest

-- A lot that passes the test, and that can be taken from under the condition.
abbrev pub passing : (Detail → Bool) → (Detail → Bool) → Detail → Bool
passing condition test d = test d && (ltb_ℤ (pos 0) (free_volume d) && condition d)

count-insert :
    (test : Detail → Bool) (d : Detail) (ds : List Detail)
    → count test (insert_by_id d ds) ≡ (if test d then 1 else 0) + count test ds
unfolding insert_by_id count
count-insert test d [] = refl
count-insert test d (e ∷ ds) = elim (Bool-cases (leb d.id e.id)) [
  | inl le ↦ rw le refl
  | inr gt ↦ rw (gt, count-insert test d ds) (omega arith)
]

pub count-sort :
    (test : Detail → Bool) (ds : List Detail) → count test (sort_by_id ds) ≡ count test ds
unfolding sort_by_id count
count-sort test [] = refl
count-sort test (d ∷ ds) = count-insert test d (sort_by_id ds) ∙ (rw (count-sort test ds) refl)

pub count-append :
    (test : Detail → Bool) (xs ys : List Detail)
    → count test (xs ++ ys) ≡ count test xs + count test ys
unfolding count
count-append test [] ys = omega arith
count-append test (x ∷ xs) ys = rw (count-append test xs ys) (omega arith)

pub count-select :
    (condition test : Detail → Bool) (ds : List Detail)
    → count test (select condition ds) ≡ count (passing condition test) ds
unfolding select count
count-select condition test [] = refl
count-select condition test (d ∷ ds) =
    let ih = count-select condition test ds in
    elim (Bool-cases (test d)) [
      | inl hit ↦ elim (Bool-cases (ltb_ℤ (pos 0) (free_volume d))) [
        | inl free ↦ elim (Bool-cases (condition d)) [
          | inl take ↦ rw (free, take, hit, ih) refl
          | inr skip ↦ rw (free, skip, hit, ih) (omega arith)
        ]
        | inr full ↦ rw (full, hit, ih) (omega arith)
      ]
      | inr miss ↦ elim (Bool-cases (ltb_ℤ (pos 0) (free_volume d))) [
        | inl free ↦ elim (Bool-cases (condition d)) [
          | inl take ↦ rw (free, take, miss, ih) (omega arith)
          | inr skip ↦ rw (free, skip, miss, ih) (omega arith)
        ]
        | inr full ↦ rw (full, miss, ih) (omega arith)
      ]
    ]

-- A lot opened up to the day was opened before it or on it.
passing_cell :
    (hit free : Bool) (o day : ℕ)
    → (if hit && (free && ltb o day) then 1 else 0) + (if hit && (free && (o == day)) then 1 else 0)
      ≡ (if hit && (free && leb o day) then 1 else 0)
passing_cell hit free o day = ground arith

pub count-split :
    (day : ℕ) (test : Detail → Bool) (ds : List Detail)
    → count (passing (opened_before day) test) ds + count (passing (opened_on day) test) ds
      ≡ count (passing (may_close close_flag day) test) ds
unfolding count
count-split day test [] = refl
count-split day test (d ∷ ds) =
    let cell = passing_cell (test d) (ltb_ℤ (pos 0) (free_volume d)) d.open_trading_day day in
    let ih = count-split day test ds in omega (arith, cell, ih)
