-- ===== src/Positions/CloseAllocator.antt =====
-- `PositionCloseAllocator.allocate`, app/services/position_close_allocator.py.
-- A trading day is a number; days are only compared.
pub mod Order
pub mod Lots
pub mod Greedy
pub mod Queue
pub mod Laws
mod Tests
use sim_trade.Prelude.{
  ℕ, ◌≤◌, Bool, true, false, Option, none, some, List, [], ◌∷◌, ◌++◌, ltb, leb, ◌==◌, if◌then◌else◌,
}
use sim_trade.Prelude.Int.{ℤ, pos, ◌+ℤ◌, ◌-ℤ◌, ltb_ℤ, leb_ℤ, eqb_ℤ, min_ℤ}
use sim_trade.Errors.{
  ErrorCode, Result, ok, err, ◌>>=◌, ◌>>◌, raise_if, invalid_close_volume,
  insufficient_today_position, insufficient_yesterday_position, insufficient_close_position,
  unsupported_offset_flag,
}
use sim_trade.Enums.{OffsetFlag, open_flag, close_flag, close_today, close_yesterday}

-- The columns of a `PositionDetail` that the allocator reads.
pub record Detail : Type 0 where
  pub id : ℕ
  pub open_trading_day : ℕ
  pub remaining_volume : ℤ
  pub frozen_volume : ℤ

pub record PositionFreezePlan : Type 0 where
  pub detail : Detail
  pub volume : ℤ
  pub resolved_offset_flag : OffsetFlag

unfoldable pub free_volume : Detail → ℤ
free_volume d = d.remaining_volume -ℤ d.frozen_volume

-- `sorted(..., key=lambda item: item.id)`, which is stable
pub insert_by_id : Detail → List Detail → List Detail
insert_by_id d [] = d ∷ []
insert_by_id d (e ∷ rest) = if leb d.id e.id then d ∷ e ∷ rest else e ∷ insert_by_id d rest

pub sort_by_id : List Detail → List Detail
unfolding insert_by_id
sort_by_id [] = []
sort_by_id (d ∷ rest) = insert_by_id d (sort_by_id rest)

-- A generator expression: the available details that pass a test.
pub select : (Detail → Bool) → List Detail → List Detail
unfolding free_volume
select test [] = []
select test (d ∷ rest) =
    if ltb_ℤ (pos 0) (free_volume d)
    then (if test d then d ∷ select test rest else select test rest)
    else select test rest

abbrev pub opened_before : ℕ → Detail → Bool
opened_before day d = ltb d.open_trading_day day

abbrev pub opened_on : ℕ → Detail → Bool
opened_on day d = d.open_trading_day == day

pub yesterday : ℕ → List Detail → List Detail
unfolding sort_by_id select
yesterday day details = sort_by_id (select (opened_before day) details)

pub today : ℕ → List Detail → List Detail
unfolding sort_by_id select
today day details = sort_by_id (select (opened_on day) details)

-- The candidates of a close flag, and the code that is raised if they do not suffice.
pub candidates : OffsetFlag → ℕ → List Detail → Result (List Detail × ErrorCode)
unfolding yesterday today
candidates close_today day details = ok (today day details, insufficient_today_position)
candidates close_yesterday day details = ok (yesterday day details, insufficient_yesterday_position)
candidates close_flag day details =
    ok (yesterday day details ++ today day details, insufficient_close_position)
candidates open_flag day details = err unsupported_offset_flag

abbrev pub resolve_flag : ℕ → Detail → OffsetFlag
resolve_flag day d = if opened_on day d then close_today else close_yesterday

plan : ℕ → Detail → ℤ → PositionFreezePlan
plan day d allocated = record {
  detail = d;
  volume = allocated;
  resolved_offset_flag = resolve_flag day d;
}

abbrev add_plan : PositionFreezePlan → List PositionFreezePlan × ℤ → List PositionFreezePlan × ℤ
add_plan p (plans, remaining) = (p ∷ plans, remaining)

-- The loop, from `remaining` on: the plans, and what is still missing after it.
pub take_from : ℕ → List Detail → ℤ → List PositionFreezePlan × ℤ
unfolding plan free_volume
take_from day [] remaining = ([], remaining)
take_from day (d ∷ rest) remaining =
    let allocated = min_ℤ (free_volume d) remaining in
    let left = if ltb_ℤ (pos 0) allocated then remaining -ℤ allocated else remaining in
    let later = if eqb_ℤ left (pos 0) then ([], left) else take_from day rest left in
    if ltb_ℤ (pos 0) allocated then add_plan (plan day d allocated) later else later

-- `if remaining > 0: raise`
finish : ErrorCode → List PositionFreezePlan × ℤ → Result (List PositionFreezePlan)
finish code (plans, remaining) = if ltb_ℤ (pos 0) remaining then err code else ok plans

pub allocate : List Detail → OffsetFlag → ℕ → ℤ → Result (List PositionFreezePlan)
unfolding candidates take_from finish
allocate details flag day volume = do
  raise_if (leb_ℤ volume (pos 0)) invalid_close_volume
  (chosen, code) ← candidates flag day details
  finish code (take_from day chosen volume)
