-- ===== src/Settlement/Validation/Backing.antt =====
-- What the checks of one allocation establish.
use sim_trade.Prelude.{◌≡◌, refl, sym, ap, Bool, true, false, Option, none, some, List, arith}
use sim_trade.Prelude.Int.{ℤ, pos, ◌+ℤ◌, ◌≤ℤ◌, eqb_ℤ, eq_of_parts, int_laws}
use sim_trade.Errors.{Result, ok, err, ◌>>◌, Ensures, >>=-Ensures, >>-Ensures}
use sim_trade.Enums.{
  PositionDirection, long, short, OffsetFlag, same_offset, open_flag, close_flag, close_today,
  close_yesterday,
}
use sim_trade.Settlement.Rows.{LotRow, AllocationRow, OrderRow, PositionRow}
use sim_trade.Settlement.Consumption.{lot_of}
use sim_trade.Settlement.Consumption.Laws.{IsUsable}
use sim_trade.Settlement.Validation.{
  demand, validate_allocation_balance, volumes_balance, commissions_balance, allocation_belongs,
  is_resolved, required_lot, lot_belongs, expected_flag, is_expected, lot_covers, check_allocation,
  has_side,
}

pub demand-Ensures :
    {B : Type 0} {P : B → Type 0} (test : Bool) {after : Result B}
    → (test ≡ true → Ensures P after)
    → Ensures P (demand test >> after)
demand-Ensures true h = h refl
demand-Ensures false h = record { ensured = λ e. absurd cc }

pub eqb_ℤ-eq : (a b : ℤ) → eqb_ℤ a b ≡ true → a ≡ b
eqb_ℤ-eq a b h = eq_of_parts a b (ground arith)

pub zero_add : (x : ℤ) → x ≡ pos 0 +ℤ x
zero_add x = omega int_laws

pub demand-true : (test : Bool) {u : Unit {0}} → demand test ≡ ok u → test ≡ true
demand-true true h = refl
demand-true false h = absurd cc

-- The volumes and the commissions of an allocation add up, and none is negative.
pub record IsBalanced (a : AllocationRow) : Type 0 where
  pub volumes :
      a.original_frozen_volume ≡ a.remaining_frozen_volume +ℤ a.consumed_volume +ℤ a.released_volume
  pub commissions :
      a.original_frozen_commission
      ≡ a.remaining_frozen_commission +ℤ a.consumed_commission +ℤ a.released_commission
  pub usable : IsUsable a
  pub consumed : (pos 0 ≤ℤ a.consumed_volume) × (pos 0 ≤ℤ a.consumed_commission)
  pub released : (pos 0 ≤ℤ a.released_volume) × (pos 0 ≤ℤ a.released_commission)

-- An allocation rests on a lot of the position that its flag fits and that still holds its volume.
pub record IsBacked (o : OrderRow) (lots : List LotRow) (a : AllocationRow) : Type 0 where
  pub balanced : IsBalanced a
  pub lot : LotRow
  pub found : lot_of a.position_detail_id lots ≡ ok lot
  pub flag : expected_flag o lot ≡ some a.key.resolved_offset_flag
  pub frozen : a.remaining_frozen_volume ≤ℤ lot.frozen_volume
  pub held : a.remaining_frozen_volume ≤ℤ lot.remaining_volume

balance_of :
    (a : AllocationRow) → volumes_balance a ≡ true → commissions_balance a ≡ true → IsBalanced a
balance_of a hv hc = record {
  volumes = eq_of_parts _ _ (ground arith);
  commissions = eq_of_parts _ _ (ground arith);
  usable = record { volume = ground arith; commission = ground arith };
  consumed = (ground arith, ground arith);
  released = (ground arith, ground arith);
}

validate_allocation_balance-IsBalanced :
    (a : AllocationRow) → Ensures (λ _. IsBalanced a) (validate_allocation_balance a)
unfolding validate_allocation_balance
validate_allocation_balance-IsBalanced a =
    demand-Ensures (volumes_balance a)
      (λ hv. record { ensured = λ e. balance_of a hv (demand-true _ e) })

required_lot-found : (r : Result LotRow) (l : LotRow) → required_lot r ≡ ok l → r ≡ ok l
required_lot-found (ok l') l h = h
required_lot-found (err code) l h = absurd cc

same_offset-eq : (f g : OffsetFlag) → same_offset f g ≡ true → f ≡ g
same_offset-eq open_flag open_flag h = refl
same_offset-eq close_flag close_flag h = refl
same_offset-eq close_today close_today h = refl
same_offset-eq close_yesterday close_yesterday h = refl
same_offset-eq _ _ h = absurd cc

is_expected-eq :
    (flag : OffsetFlag) (expected : Option OffsetFlag)
    → is_expected flag expected ≡ true
    → expected ≡ some flag
is_expected-eq flag none h = absurd cc
is_expected-eq flag (some expected) h = ap some (sym (same_offset-eq flag expected h))

pub has_side-eq :
    (side : PositionDirection) (d : Option PositionDirection)
    → has_side side d ≡ true
    → d ≡ some side
has_side-eq long none h = absurd cc
has_side-eq long (some long) h = refl
has_side-eq long (some short) h = absurd cc
has_side-eq short none h = absurd cc
has_side-eq short (some long) h = absurd cc
has_side-eq short (some short) h = refl

pub check_allocation-IsBacked :
    (o : OrderRow) (p : PositionRow) (side : PositionDirection) (lots : List LotRow)
    → (a : AllocationRow) → Ensures (λ _. IsBacked o lots a) (check_allocation o p side lots a)
unfolding check_allocation
check_allocation-IsBacked o p side lots a = >>-Ensures (validate_allocation_balance a) (λ balanced.
    demand-Ensures (allocation_belongs o p a) (λ _.
      demand-Ensures (is_resolved a.key.resolved_offset_flag) (λ _.
        >>=-Ensures (required_lot (lot_of a.position_detail_id lots)) (λ l el.
          demand-Ensures (lot_belongs o p side l) (λ _.
            demand-Ensures (is_expected a.key.resolved_offset_flag (expected_flag o l)) (λ flag.
              record {
                ensured = λ e.
                    let covers : lot_covers a l ≡ true = demand-true _ e in
                    record {
                      balanced = (validate_allocation_balance-IsBalanced a).ensured balanced;
                      lot = l;
                      found = required_lot-found _ l el;
                      flag = is_expected-eq _ _ flag;
                      frozen = ground arith;
                      held = ground arith;
                    };
              }))))))
