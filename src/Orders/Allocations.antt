-- ===== src/Orders/Allocations.antt =====
-- The lots and the frozen allocations that a closing order took, and their release when the order is
-- cancelled: `cancel_order` of app/services/order_cancellation_service.py, its part on the rows of
-- app/models/position_detail.py and app/models/position_freeze_allocation.py. Identifiers and texts
-- that are only compared are numbers, and the `updated_at` columns, which nothing reads, are left out.
pub mod Laws
use sim_trade.Prelude.{
  ℕ, Bool, true, false, ◌&&◌, ◌||◌, not, Option, none, some, List, [], ◌∷◌, ltb, ◌==◌,
  if◌then◌else◌,
}
use sim_trade.Prelude.Int.{ℤ, pos, ◌+ℤ◌, ◌-ℤ◌, ltb_ℤ, leb_ℤ, eqb_ℤ}
use sim_trade.Enums.{OffsetFlag, close_today, close_yesterday, PositionDirection, same_position}
use sim_trade.Money.{Money}

-- The columns of a `PositionDetail` that a cancellation reads or writes.
pub record Lot : Type 0 where
  pub position_detail_id : ℕ
  pub direction : Option PositionDirection
  pub open_trading_day : ℕ
  pub remaining_volume : ℤ
  pub frozen_volume : ℤ

pub data PositionFreezeAllocationStatus : Type 0 where
  active consumed released : PositionFreezeAllocationStatus

pub record PositionFreezeAllocation : Type 0 where
  pub order_id : ℕ
  pub position_id : ℕ
  pub position_detail_id : ℕ
  pub account_id : ℕ
  pub exchange_id : ℕ
  pub symbol : ℕ
  pub resolved_offset_flag : Option OffsetFlag
  pub original_frozen_volume : ℤ
  pub remaining_frozen_volume : ℤ
  pub consumed_volume : ℤ
  pub released_volume : ℤ
  pub original_frozen_commission : Money
  pub remaining_frozen_commission : Money
  pub consumed_commission : Money
  pub released_commission : Money
  pub status : PositionFreezeAllocationStatus

abbrev pub is_some : Option Lot → Bool
is_some none = false
is_some (some l) = true

-- The two sums over the allocations.
unfoldable pub allocation_volume : List PositionFreezeAllocation → ℤ
allocation_volume [] = pos 0
allocation_volume (a ∷ rest) = a.remaining_frozen_volume +ℤ allocation_volume rest

unfoldable pub allocation_commission : List PositionFreezeAllocation → Money
allocation_commission [] = pos 0
allocation_commission (a ∷ rest) = a.remaining_frozen_commission +ℤ allocation_commission rest

-- `detail_map.get(position_detail_id)`: of two rows with one key the last is in the map.
unfoldable pub detail_of : ℕ → List Lot → Option Lot
detail_of key [] = none
detail_of key (l ∷ rest) =
    let later = detail_of key rest in
    if is_some later then later else (if l.position_detail_id == key then some l else none)

abbrev pub has_direction : PositionDirection → Option PositionDirection → Bool
has_direction d none = false
has_direction d (some e) = same_position d e

-- The resolved flag is the one of the day on which the lot was opened.
pub matches_day : Option OffsetFlag → ℕ → ℕ → Bool
matches_day (some close_today) opened day = opened == day
matches_day (some close_yesterday) opened day = ltb opened day
matches_day _ opened day = false

-- The facts of the order and its position that an allocation is compared with.
pub record AllocationOwner : Type 0 where
  pub order_id : ℕ
  pub position_id : ℕ
  pub account_id : ℕ
  pub exchange_id : ℕ
  pub symbol : ℕ
  pub position_direction : PositionDirection
  pub trading_day : ℕ

abbrev pub is_owned : AllocationOwner → PositionFreezeAllocation → Bool
is_owned o a =
    (a.order_id == o.order_id)
    && ((a.position_id == o.position_id)
        && ((a.account_id == o.account_id)
            && ((a.exchange_id == o.exchange_id) && (a.symbol == o.symbol))))

-- The volumes and the commissions of an allocation add up.
pub is_balanced : PositionFreezeAllocation → Bool
is_balanced a =
    eqb_ℤ a.original_frozen_volume
      (a.remaining_frozen_volume +ℤ a.consumed_volume +ℤ a.released_volume)
    && eqb_ℤ a.original_frozen_commission
        (a.remaining_frozen_commission +ℤ a.consumed_commission +ℤ a.released_commission)

pub covers : PositionFreezeAllocation → Lot → Bool
covers a l =
    not (ltb_ℤ l.frozen_volume a.remaining_frozen_volume)
    && not (ltb_ℤ l.remaining_volume a.remaining_frozen_volume)

pub is_consistent_with : AllocationOwner → PositionFreezeAllocation → Option Lot → Bool
unfolding matches_day covers is_balanced
is_consistent_with o a none = false
is_consistent_with o a (some l) =
    is_owned o a
    && (has_direction o.position_direction l.direction
        && (matches_day a.resolved_offset_flag l.open_trading_day o.trading_day
            && (covers a l && is_balanced a)))

-- The first loop over the allocations raises unless this holds of each.
unfoldable pub are_consistent : AllocationOwner → List Lot → List PositionFreezeAllocation → Bool
unfolding is_consistent_with
are_consistent o lots [] = true
are_consistent o lots (a ∷ rest) =
    is_consistent_with o a (detail_of a.position_detail_id lots) && are_consistent o lots rest

-- `detail.frozen_volume -= released_volume`, on the object that the map holds.
pub release_lot : ℕ → ℤ → List Lot → List Lot
unfolding detail_of
release_lot key volume [] = []
release_lot key volume (l ∷ rest) =
    if is_some (detail_of key rest)
    then l ∷ release_lot key volume rest
    else if l.position_detail_id == key
    then record l { frozen_volume = l.frozen_volume -ℤ volume } ∷ rest
    else l ∷ rest

pub released_allocation : PositionFreezeAllocation → PositionFreezeAllocation
released_allocation a = record a {
  remaining_frozen_volume = pos 0;
  released_volume = a.released_volume +ℤ a.remaining_frozen_volume;
  remaining_frozen_commission = pos 0;
  released_commission = a.released_commission +ℤ a.remaining_frozen_commission;
  status = released;
}

-- An allocation with nothing left is passed over.
pub is_empty : PositionFreezeAllocation → Bool
is_empty a = leb_ℤ a.remaining_frozen_volume (pos 0) && eqb_ℤ a.remaining_frozen_commission (pos 0)

pub release_one : PositionFreezeAllocation → List Lot → PositionFreezeAllocation × List Lot
unfolding release_lot released_allocation is_empty
release_one a lots =
    if is_empty a
    then (a, lots)
    else (released_allocation a, release_lot a.position_detail_id a.remaining_frozen_volume lots)

-- The second loop.
unfoldable pub release_all :
    List PositionFreezeAllocation → List Lot → List PositionFreezeAllocation × List Lot
unfolding release_one
release_all [] lots = ([], lots)
release_all (a ∷ rest) lots =
    let (a', lots') = release_one a lots in
    let (rest', lots'') = release_all rest lots' in (a' ∷ rest', lots'')
