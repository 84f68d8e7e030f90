-- ===== src/Positions/CloseAllocator/Queue.antt =====
-- The candidates of a close flag as one queue.
use sim_trade.Prelude.{
  ℕ, ◌≡◌, refl, Bool, List, [], ◌∷◌, ◌++◌, arith, All, ltb, leb, ◌==◌, if◌then◌else◌, ap, ◌∙◌,
  All-append,
}
use sim_trade.Prelude.Int.{ℤ, pos, ◌+ℤ◌, int_laws, ltb_ℤ}
use sim_trade.Errors.{
  ErrorCode, ok, insufficient_today_position, insufficient_yesterday_position,
  insufficient_close_position,
}
use sim_trade.Enums.{OffsetFlag, open_flag, close_flag, close_today, close_yesterday}
use sim_trade.Positions.CloseAllocator.{
  Detail, free_volume, select, opened_before, opened_on, yesterday, today, candidates,
}
use sim_trade.Positions.CloseAllocator.Lots.{
  count, passing, count-sort, count-append, count-select, count-split,
}
use sim_trade.Positions.CloseAllocator.Greedy.{IsAvailable, sum_free}
use sim_trade.Positions.CloseAllocator.Order.{
  may_close, available_volume, sum_free-sort, sum_free-append, sum_free-select, IsSelected,
  All-select, All-sort, IsSorted, sort-IsSorted,
}

-- The queue of a flag: yesterday's lots, then today's, each sorted by id; every lot available and
-- closable under the flag; and the available closable lots among the details are all in it, each as
-- often as it is there, so that all the closable volume is.
pub record IsQueue (flag : OffsetFlag) (day : ℕ) (details cs : List Detail) : Type 0 where
  pub old : List Detail
  pub new : List Detail
  pub joined : cs ≡ old ++ new
  pub old_sorted : IsSorted old
  pub new_sorted : IsSorted new
  pub old_before : All (IsSelected (opened_before day)) old
  pub new_on : All (IsSelected (opened_on day)) new
  pub volume : sum_free cs ≡ available_volume (may_close flag day) details
  pub lots :
      (test : Detail → Bool) → count test cs ≡ count (passing (may_close flag day) test) details

yesterday-IsSorted : (day : ℕ) (ds : List Detail) → IsSorted (yesterday day ds)
unfolding yesterday
yesterday-IsSorted day ds = sort-IsSorted (select (opened_before day) ds)

today-IsSorted : (day : ℕ) (ds : List Detail) → IsSorted (today day ds)
unfolding today
today-IsSorted day ds = sort-IsSorted (select (opened_on day) ds)

yesterday-IsSelected :
    (day : ℕ) (ds : List Detail) → All (IsSelected (opened_before day)) (yesterday day ds)
unfolding yesterday
yesterday-IsSelected day ds =
    All-sort (IsSelected (opened_before day)) _ (All-select (opened_before day) ds)

today-IsSelected : (day : ℕ) (ds : List Detail) → All (IsSelected (opened_on day)) (today day ds)
unfolding today
today-IsSelected day ds = All-sort (IsSelected (opened_on day)) _ (All-select (opened_on day) ds)

yesterday_volume :
    (day : ℕ) (ds : List Detail)
    → sum_free (yesterday day ds) ≡ available_volume (opened_before day) ds
unfolding yesterday
yesterday_volume day ds =
    sum_free-sort (select (opened_before day) ds) ∙ sum_free-select (opened_before day) ds

today_volume :
    (day : ℕ) (ds : List Detail) → sum_free (today day ds) ≡ available_volume (opened_on day) ds
unfolding today
today_volume day ds = sum_free-sort (select (opened_on day) ds) ∙ sum_free-select (opened_on day) ds

yesterday_lots :
    (day : ℕ) (ds : List Detail) (test : Detail → Bool)
    → count test (yesterday day ds) ≡ count (passing (opened_before day) test) ds
unfolding yesterday
yesterday_lots day ds test =
    count-sort test (select (opened_before day) ds) ∙ count-select (opened_before day) test ds

today_lots :
    (day : ℕ) (ds : List Detail) (test : Detail → Bool)
    → count test (today day ds) ≡ count (passing (opened_on day) test) ds
unfolding today
today_lots day ds test =
    count-sort test (select (opened_on day) ds) ∙ count-select (opened_on day) test ds

plus_zero : (v : ℤ) → v +ℤ pos 0 ≡ v
plus_zero v = omega int_laws

zero_plus : (v : ℤ) → pos 0 +ℤ v ≡ v
zero_plus v = omega int_laws

-- A lot opened up to the day was opened before it or on it.
split_cell :
    (o day : ℕ) (v : ℤ)
    → (if leb o day then v else pos 0)
      ≡ (if ltb o day then v else pos 0) +ℤ (if o == day then v else pos 0)
split_cell o day v = ground (arith, zero_plus v, plus_zero v, plus_zero (pos 0))

available_volume-split :
    (day : ℕ) (ds : List Detail)
    → available_volume (may_close close_flag day) ds
      ≡ available_volume (opened_before day) ds +ℤ available_volume (opened_on day) ds
unfolding available_volume
available_volume-split day [] = omega int_laws
available_volume-split day (d ∷ ds) =
    let v = if ltb_ℤ (pos 0) (free_volume d) then free_volume d else pos 0 in
    rw (available_volume-split day ds, split_cell d.open_trading_day day v) (omega int_laws)

-- The code that is raised where the lots do not suffice.
abbrev pub insufficient_code : OffsetFlag → ErrorCode
insufficient_code close_today = insufficient_today_position
insufficient_code close_yesterday = insufficient_yesterday_position
insufficient_code _ = insufficient_close_position

append-nil : (xs : List Detail) → xs ≡ xs ++ []
append-nil [] = refl
append-nil (x ∷ xs) = ap (λ (ys : List Detail). x ∷ ys) (append-nil xs)

pub queue :
    (flag : OffsetFlag) (day : ℕ) (ds : List Detail)
    → (flag ≡ open_flag → ⊥)
    → (cs : List Detail) × (candidates flag day ds ≡ ok (cs, insufficient_code flag))
      × IsQueue flag day ds cs
unfolding candidates
queue open_flag day ds h = absurd (h refl)
queue close_today day ds h = (
  today day ds,
  refl,
  record {
    old = [];
    new = today day ds;
    joined = refl;
    old_sorted = tt;
    new_sorted = today-IsSorted day ds;
    old_before = tt;
    new_on = today-IsSelected day ds;
    volume = today_volume day ds;
    lots = today_lots day ds;
  },
)
queue close_yesterday day ds h = (
  yesterday day ds,
  refl,
  record {
    old = yesterday day ds;
    new = [];
    joined = append-nil (yesterday day ds);
    old_sorted = yesterday-IsSorted day ds;
    new_sorted = tt;
    old_before = yesterday-IsSelected day ds;
    new_on = tt;
    volume = yesterday_volume day ds;
    lots = yesterday_lots day ds;
  },
)
queue close_flag day ds h = (
  yesterday day ds ++ today day ds,
  refl,
  record {
    old = yesterday day ds;
    new = today day ds;
    joined = refl;
    old_sorted = yesterday-IsSorted day ds;
    new_sorted = today-IsSorted day ds;
    old_before = yesterday-IsSelected day ds;
    new_on = today-IsSelected day ds;
    volume =
        sum_free-append (yesterday day ds) (today day ds)
        ∙ (rw (yesterday_volume day ds, today_volume day ds, available_volume-split day ds) refl);
    lots = λ test.
        count-append test (yesterday day ds) (today day ds)
        ∙ (rw (yesterday_lots day ds test, today_lots day ds test) (count-split day test ds));
  },
)

selected-IsAvailable :
    (test : Detail → Bool) (ds : List Detail) → All (IsSelected test) ds → All IsAvailable ds
selected-IsAvailable test [] h = tt
selected-IsAvailable test (d ∷ ds) h = (h.0.0, selected-IsAvailable test ds h.1)

pub queue-IsAvailable :
    (flag : OffsetFlag) (day : ℕ) (ds cs : List Detail)
    → IsQueue flag day ds cs
    → All IsAvailable cs
queue-IsAvailable flag day ds cs q = rw q.joined (
    All-append IsAvailable q.old q.new (selected-IsAvailable (opened_before day) q.old q.old_before)
      (selected-IsAvailable (opened_on day) q.new q.new_on))
