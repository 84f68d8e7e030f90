-- ===== src/Orders/Allocations/Laws.antt =====
-- What the release of the allocations does to the lots: their frozen volume falls by exactly what
-- the allocations held, and the allocations stay balanced with nothing left.
use sim_trade.Prelude.{
  ℕ, ◌≡◌, ◌∙◌, refl, ap, Bool, true, false, Option, none, some, List, [], ◌∷◌, arith, All, ◌==◌,
  ◌&&◌, inl, inr, Bool-cases,
}
use sim_trade.Prelude.Int.{
  ℤ, pos, pos_part, neg_part, ◌+ℤ◌, ◌≤ℤ◌, eqb_ℤ, leb_ℤ, int_laws, eq_of_parts,
}
use sim_trade.Orders.Allocations.{
  Lot, PositionFreezeAllocation, AllocationOwner, allocation_volume, is_some, detail_of,
  is_consistent_with, has_direction, matches_day, is_owned, covers, is_balanced, are_consistent,
  release_lot, released_allocation, is_empty, release_one, release_all,
}

pub sum_frozen : List Lot → ℤ
sum_frozen [] = pos 0
sum_frozen (l ∷ rest) = l.frozen_volume +ℤ sum_frozen rest

-- What was frozen is what is left of it, consumed or released.
pub record IsBalanced (a : PositionFreezeAllocation) : Type 0 where
  pub volumes :
      a.original_frozen_volume ≡ a.remaining_frozen_volume +ℤ a.consumed_volume +ℤ a.released_volume
  pub commissions :
      a.original_frozen_commission
      ≡ a.remaining_frozen_commission +ℤ a.consumed_commission +ℤ a.released_commission

-- An allocation with nothing left, all of which was consumed or released.
pub record IsReleased (a : PositionFreezeAllocation) : Type 0 where
  pub no_volume : a.remaining_frozen_volume ≡ pos 0
  pub no_commission : a.remaining_frozen_commission ≡ pos 0
  pub volumes : a.original_frozen_volume ≡ a.consumed_volume +ℤ a.released_volume
  pub commissions : a.original_frozen_commission ≡ a.consumed_commission +ℤ a.released_commission

unfoldable pub HasVolumeLeft : PositionFreezeAllocation → Type 0
HasVolumeLeft a = pos 0 ≤ℤ a.remaining_frozen_volume

eq-of_eqb : (a b : ℤ) → eqb_ℤ a b ≡ true → a ≡ b
eq-of_eqb a b h = ground (arith, eq_of_parts a b)

&&-eq-true : (x y : Bool) → (x && y) ≡ true → (x ≡ true) × (y ≡ true)
&&-eq-true true true h = (refl, refl)
&&-eq-true true false h = cc
&&-eq-true false y h = cc

is_balanced-IsBalanced : (a : PositionFreezeAllocation) → is_balanced a ≡ true → IsBalanced a
unfolding is_balanced
is_balanced-IsBalanced a h = record {
  volumes =
      eq-of_eqb a.original_frozen_volume
        (a.remaining_frozen_volume +ℤ a.consumed_volume +ℤ a.released_volume) (ground arith);
  commissions =
      eq-of_eqb a.original_frozen_commission
        (a.remaining_frozen_commission +ℤ a.consumed_commission +ℤ a.released_commission)
        (ground arith);
}

consistent-facts :
    (o : AllocationOwner) (a : PositionFreezeAllocation) (found : Option Lot)
    → is_consistent_with o a found ≡ true
    → (is_some found ≡ true) × (is_balanced a ≡ true)
unfolding is_consistent_with
consistent-facts o a none h = cc
consistent-facts o a (some l) h =
    let (_, h1) = &&-eq-true (is_owned o a) _ h in
    let (_, h2) = &&-eq-true (has_direction o.position_direction l.direction) _ h1 in
    let (_, h3) =
      &&-eq-true (matches_day a.resolved_offset_flag l.open_trading_day o.trading_day) _ h2 in
    let (_, h4) = &&-eq-true (covers a l) _ h3 in (refl, h4)

-- The release of one lot takes its volume from the sum.
sum_frozen-release_lot :
    (key : ℕ) (volume : ℤ) (lots : List Lot)
    → is_some (detail_of key lots) ≡ true
    → sum_frozen (release_lot key volume lots) +ℤ volume ≡ sum_frozen lots
unfolding sum_frozen release_lot
sum_frozen-release_lot key volume [] h = cc
sum_frozen-release_lot key volume (m ∷ rest) h = elim (Bool-cases (is_some (detail_of key rest))) [
  | inl later ↦
      let ih = sum_frozen-release_lot key volume rest later in
      rw later (eq_of_parts _ _ (omega (int_laws, ap pos_part ih, ap neg_part ih)))
  | inr last ↦ elim (Bool-cases (m.position_detail_id == key)) [
    | inl here ↦ rw (last, here) (omega int_laws)
    | inr other ↦ let h' = rw (last, other) at h in cc
  ]
]

-- A release changes no key.
is_some-release_lot :
    (k key : ℕ) (volume : ℤ) (lots : List Lot)
    → is_some (detail_of k (release_lot key volume lots)) ≡ is_some (detail_of k lots)
unfolding release_lot
is_some-release_lot k key volume [] = refl
is_some-release_lot k key volume (m ∷ rest) =
    let ih = is_some-release_lot k key volume rest in ground (arith, ih)

-- Every allocation has its lot.
abbrev AreFound : List PositionFreezeAllocation → List Lot → Type 0
AreFound [] lots = Unit
AreFound (a ∷ rest) lots =
    (is_some (detail_of a.position_detail_id lots) ≡ true) × AreFound rest lots

AreFound-release_lot :
    (cs : List PositionFreezeAllocation) (key : ℕ) (volume : ℤ) (lots : List Lot)
    → AreFound cs lots
    → AreFound cs (release_lot key volume lots)
AreFound-release_lot [] key volume lots f = tt
AreFound-release_lot (a ∷ rest) key volume lots f = (
  is_some-release_lot a.position_detail_id key volume lots ∙ f.0,
  AreFound-release_lot rest key volume lots f.1,
)

consistent_found :
    (o : AllocationOwner) (cs : List PositionFreezeAllocation) (lots : List Lot)
    → are_consistent o lots cs ≡ true
    → AreFound cs lots × All IsBalanced cs
unfolding are_consistent
consistent_found o [] lots h = (tt, tt)
consistent_found o (a ∷ rest) lots h =
    let (first, others) =
      &&-eq-true (is_consistent_with o a (detail_of a.position_detail_id lots)) _ h in
    let (found, balanced) = consistent-facts o a (detail_of a.position_detail_id lots) first in
    let (all_found, all_balanced) = consistent_found o rest lots others in
    ((found, all_found), (is_balanced-IsBalanced a balanced, all_balanced))

-- One allocation: its volume leaves the lots, and it is released.
record IsReleasing (a : PositionFreezeAllocation) (lots : List Lot)
    (out : PositionFreezeAllocation × List Lot) : Type 0 where
  moved : sum_frozen out.1 +ℤ a.remaining_frozen_volume ≡ sum_frozen lots
  done : IsReleased out.0

release_one-empty :
    (a : PositionFreezeAllocation) (lots : List Lot)
    → is_empty a ≡ true
    → release_one a lots ≡ (a, lots)
unfolding release_one
release_one-empty a lots h = rw h refl

release_one-full :
    (a : PositionFreezeAllocation) (lots : List Lot)
    → is_empty a ≡ false
    → release_one a lots
      ≡ (released_allocation a, release_lot a.position_detail_id a.remaining_frozen_volume lots)
unfolding release_one
release_one-full a lots h = rw h refl

is_empty-facts :
    (a : PositionFreezeAllocation)
    → HasVolumeLeft a
    → is_empty a ≡ true
    → (a.remaining_frozen_volume ≡ pos 0) × (a.remaining_frozen_commission ≡ pos 0)
unfolding is_empty HasVolumeLeft
is_empty-facts a v h =
    let (none_left, commission) = &&-eq-true (leb_ℤ a.remaining_frozen_volume (pos 0)) _ h in
    (eq_of_parts _ _ (ground arith), eq-of_eqb a.remaining_frozen_commission (pos 0) commission)

empty-IsReleased :
    (a : PositionFreezeAllocation)
    → IsBalanced a
    → a.remaining_frozen_volume ≡ pos 0
    → a.remaining_frozen_commission ≡ pos 0
    → IsReleased a
empty-IsReleased a b v c = record {
  no_volume = v;
  no_commission = c;
  volumes = eq_of_parts _ _ (
      omega (int_laws, ap pos_part b.volumes, ap neg_part b.volumes, ap pos_part v, ap neg_part v));
  commissions = eq_of_parts _ _ (
      omega (
        int_laws,
        ap pos_part b.commissions,
        ap neg_part b.commissions,
        ap pos_part c,
        ap neg_part c,
      ));
}

released_allocation-IsReleased :
    (a : PositionFreezeAllocation) → IsBalanced a → IsReleased (released_allocation a)
unfolding released_allocation
released_allocation-IsReleased a b = record {
  no_volume = refl;
  no_commission = refl;
  volumes = eq_of_parts _ _ (omega (int_laws, ap pos_part b.volumes, ap neg_part b.volumes));
  commissions =
      eq_of_parts _ _ (omega (int_laws, ap pos_part b.commissions, ap neg_part b.commissions));
}

release_one-IsReleasing :
    (a : PositionFreezeAllocation) (lots : List Lot)
    → is_some (detail_of a.position_detail_id lots) ≡ true
    → IsBalanced a
    → HasVolumeLeft a
    → IsReleasing a lots (release_one a lots)
release_one-IsReleasing a lots found b v = elim (Bool-cases (is_empty a)) [
  | inl empty ↦
      let (nv, nc) = is_empty-facts a v empty in
      rw (release_one-empty a lots empty) (record {
        moved = eq_of_parts _ _ (omega (int_laws, ap pos_part nv, ap neg_part nv));
        done = empty-IsReleased a b nv nc;
      })
  | inr full ↦ rw (release_one-full a lots full) (record {
    moved = sum_frozen-release_lot a.position_detail_id a.remaining_frozen_volume lots found;
    done = released_allocation-IsReleased a b;
  })
]

AreFound-release_one :
    (rest : List PositionFreezeAllocation) (a : PositionFreezeAllocation) (lots : List Lot)
    → AreFound rest lots
    → AreFound rest (release_one a lots).1
AreFound-release_one rest a lots f = elim (Bool-cases (is_empty a)) [
  | inl empty ↦ rw (release_one-empty a lots empty) f
  | inr full ↦
      rw (release_one-full a lots full)
        (AreFound-release_lot rest a.position_detail_id a.remaining_frozen_volume lots f)
]

release_all-facts :
    (cs : List PositionFreezeAllocation) (lots : List Lot)
    → AreFound cs lots
    → All IsBalanced cs
    → All HasVolumeLeft cs
    → (sum_frozen (release_all cs lots).1 +ℤ allocation_volume cs ≡ sum_frozen lots)
      × All IsReleased (release_all cs lots).0
unfolding release_all allocation_volume
release_all-facts [] lots f b v = (eq_of_parts _ _ (omega int_laws), tt)
release_all-facts (a ∷ rest) lots f b v =
    let one = release_one-IsReleasing a lots f.0 b.0 v.0 in
    let lots' = (release_one a lots).1 in
    let (sums, done) =
      release_all-facts rest lots' (AreFound-release_one rest a lots f.1) b.1 v.1 in
    let m = one.moved in
    (
      eq_of_parts _ _
          (omega (int_laws, ap pos_part sums, ap neg_part sums, ap pos_part m, ap neg_part m)),
      (one.done, done),
    )

-- When the allocations of an order pass the consistency check and none holds a negative volume, their
-- release takes from the lots exactly the volume that they held, and leaves each allocation with
-- nothing, all of it consumed or released.
pub release_all_conserves :
    (o : AllocationOwner) (cs : List PositionFreezeAllocation) (lots : List Lot)
    → are_consistent o lots cs ≡ true
    → All HasVolumeLeft cs
    → (sum_frozen (release_all cs lots).1 +ℤ allocation_volume cs ≡ sum_frozen lots)
      × All IsReleased (release_all cs lots).0
release_all_conserves o cs lots h v =
    let (found, balanced) = consistent_found o cs lots h in
    release_all-facts cs lots found balanced v
