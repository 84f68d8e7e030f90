-- ===== src/Orders/Cancellation/Lots.antt =====
-- The position and the lots that a cancelled closing order gives up.
use sim_trade.Prelude.{
  ◌≡◌, ◌∙◌, refl, sym, ap, Bool, true, false, not, Option, some, arith, All, List, [], ◌∷◌,
}
use sim_trade.Prelude.Int.{ℤ, ◌+ℤ◌, ◌-ℤ◌, ltb_ℤ, int_laws}
use sim_trade.Errors.{
  ok, raise_if, >>=-eq-ok, raise_if-eq-ok, ok-injective, cancel_position_inconsistent,
}
use sim_trade.Orders.Account.{Account}
use sim_trade.Orders.Allocations.{
  AllocationOwner, Lot, PositionFreezeAllocation, allocation_volume, are_consistent, release_all,
}
use sim_trade.Orders.Allocations.Laws.{sum_frozen, HasVolumeLeft, IsReleased, release_all_conserves}
use sim_trade.Orders.Rows.{Order, Position, Rows, Request}
use sim_trade.Orders.Cancellation.{
  Released, is_open, is_cancellable, cancelled_order, release_position, unfreeze_position,
  committed, cancel_order, position_direction_of, required, is_direction, sums_differ, owner_of,
}
use sim_trade.Orders.Cancellation.Steps.{eq_of_required}
use sim_trade.Orders.Cancellation.Laws.{cancel_order-IsCancelling, eq_of_eqb, some-injective}
use sim_trade.Orders.Cancellation.Resources.{close_resources, closing_branch}

-- The position, the lots and the allocations of a closing order that were released.
record IsUnfrozen (o : Order) (position : Option Position) (lots : List Lot)
    (allocations : List PositionFreezeAllocation) (p' : Position) (lots' : List Lot)
    (allocations' : List PositionFreezeAllocation) : Type 0 where
  p : Position
  found : position ≡ some p
  owner : AllocationOwner
  consistent : are_consistent owner lots allocations ≡ true
  volume : allocation_volume allocations ≡ o.remaining_volume
  position_after : p' ≡ unfreeze_position o.remaining_volume p
  lots_after : lots' ≡ (release_all allocations lots).1
  allocations_after : allocations' ≡ (release_all allocations lots).0

sums_volume :
    (o : Order) (allocations : List PositionFreezeAllocation)
    → sums_differ o allocations ≡ false
    → allocation_volume allocations ≡ o.remaining_volume
sums_volume o [] h = cc
sums_volume o (c ∷ cs) h = eq_of_eqb _ _ (ground arith)

not_eq-false : (x : Bool) → not x ≡ false → x ≡ true
not_eq-false true h = refl
not_eq-false false h = cc

release_position-IsUnfrozen :
    (o : Order) (position : Option Position) (lots : List Lot)
    → (allocations : List PositionFreezeAllocation) (p' : Position) (lots' : List Lot)
    → (allocations' : List PositionFreezeAllocation)
    → release_position o position lots allocations ≡ ok (p', lots', allocations')
    → IsUnfrozen o position lots allocations p' lots' allocations'
unfolding release_position
release_position-IsUnfrozen o position lots allocations p' lots' allocations' h =
    let d = position_direction_of o.direction in
    let (p, ep, h1) = >>=-eq-ok (required cancel_position_inconsistent position) _ h in
    let (_, _, h2) = >>=-eq-ok (raise_if (not (is_direction d p.direction)) _) _ h1 in
    let (_, s, h3) = >>=-eq-ok (raise_if (sums_differ o allocations) _) _ h2 in
    let (_, c, h4) =
      >>=-eq-ok (raise_if (not (are_consistent (owner_of o p d) lots allocations)) _) _ h3 in
    let (_, _, h5) = >>=-eq-ok (raise_if (ltb_ℤ p.frozen_volume o.remaining_volume) _) _ h4 in
    let e = ok-injective h5 in
    record {
      p = p;
      found = eq_of_required _ _ _ ep;
      owner = owner_of o p d;
      consistent = not_eq-false _ (raise_if-eq-ok _ _ c);
      volume = sums_volume o allocations (raise_if-eq-ok _ _ s);
      position_after =
          sym (ap (λ (x : Position × List Lot × List PositionFreezeAllocation). x.0) e);
      lots_after = sym (ap (λ (x : Position × List Lot × List PositionFreezeAllocation). x.1) e);
      allocations_after =
          sym (ap (λ (x : Position × List Lot × List PositionFreezeAllocation). x.2) e);
    }

-- The position and the lots of a cancelled closing order.
pub record IsGivenUp (o : Order) (p : Position) (lots : List Lot) (rows' : Rows) : Type 0 where
  pub p' : Position
  pub found : rows'.position ≡ some p'
  pub frozen : p'.frozen_volume +ℤ o.remaining_volume ≡ p.frozen_volume
  pub total : p'.total_volume ≡ p.total_volume
  pub available :
      p'.available_volume ≡ p'.total_volume -ℤ p'.frozen_volume -ℤ p'.settlement_locked_volume
  pub lots_frozen : sum_frozen rows'.lots +ℤ o.remaining_volume ≡ sum_frozen lots
  pub allocations : All IsReleased rows'.allocations

unfrozen-facts :
    (v : ℤ) (p : Position)
    → let p' = unfreeze_position v p in
      (p'.frozen_volume +ℤ v ≡ p.frozen_volume)
      × (p'.total_volume ≡ p.total_volume)
      × (p'.available_volume ≡ p'.total_volume -ℤ p'.frozen_volume -ℤ p'.settlement_locked_volume)
unfolding unfreeze_position
unfrozen-facts v p = (omega int_laws, refl, refl)

committed-facts :
    (o o' : Order) (rel : Released) (rows : Rows) (p' : Position)
    → rel.position ≡ some p'
    → ((committed o o' rel rows).position ≡ some p')
      × ((committed o o' rel rows).lots ≡ rel.lots)
      × ((committed o o' rel rows).allocations ≡ rel.allocations)
unfolding committed
committed-facts o o' rel rows p' h = (rw h refl, refl, refl)

unfrozen-IsGivenUp :
    (o o' : Order) (rows : Rows) (rel : Released) (p p' : Position)
    → IsUnfrozen o rows.position rows.lots rows.allocations p' rel.lots rel.allocations
    → rows.position ≡ some p
    → rel.position ≡ some p'
    → All HasVolumeLeft rows.allocations
    → IsGivenUp o p rows.lots (committed o o' rel rows)
unfrozen-IsGivenUp o o' rows rel p p' u ep er left =
    let same : u.p ≡ p = some-injective (sym u.found ∙ ep) in
    let after : p' ≡ unfreeze_position o.remaining_volume p =
      u.position_after ∙ ap (unfreeze_position o.remaining_volume) same in
    let (frozen, total, available) = unfrozen-facts o.remaining_volume p in
    let (sums, done) = release_all_conserves u.owner rows.allocations rows.lots u.consistent left in
    let (cp, cl, ca) = committed-facts o o' rel rows p' er in
    record {
      p' = p';
      found = cp;
      frozen = rw after frozen;
      total = rw after total;
      available = rw after available;
      lots_frozen = rw (cl, u.lots_after, ← u.volume) sums;
      allocations = rw (ca, u.allocations_after) done;
    }

-- A cancellation of an active closing order that returns, none of whose allocations holds a negative
-- volume, takes the volume that was left of the order from the frozen volume of the position and
-- from that of its lots alike, and leaves every allocation with nothing.
pub cancel_order_lots :
    (r : Request) (rows rows' : Rows) (o o' : Order) (a : Account) (p : Position)
    → rows.order ≡ some o
    → rows.account ≡ some a
    → rows.position ≡ some p
    → is_cancellable o.status ≡ true
    → is_open o.offset_flag ≡ false
    → All HasVolumeLeft rows.allocations
    → cancel_order r rows ≡ (ok o', rows')
    → IsGivenUp o p rows.lots rows'
cancel_order_lots r rows rows' o o' a p eo ea ep active closing left h =
    let c = cancel_order-IsCancelling r rows rows' o o' a eo ea active h in
    let (p', released, er, _) =
      close_resources o a rows c.released (sym (closing_branch o a rows closing) ∙ c.resources) in
    let u =
      release_position-IsUnfrozen o rows.position rows.lots rows.allocations p' c.released.lots
        c.released.allocations released in
    rw c.rows_after (unfrozen-IsGivenUp o (cancelled_order r o) rows c.released p p' u ep er left)
