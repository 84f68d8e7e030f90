-- ===== src/Settlement/Consumption/Keys.antt =====
-- Identifiers of lots and allocations: a fill keeps them, and where none stands twice, an allocation
-- takes from one lot.
use sim_trade.Prelude.{
  ℕ, ◌≤◌, ◌≡◌, ◌∙◌, refl, inl, inr, Bool, true, List, [], ◌∷◌, All, All-zip, arith, Bool-cases,
  ◌==◌,
}
use sim_trade.Prelude.Int.{ℤ, pos, ◌≤ℤ◌, int_laws}
use sim_trade.Errors.{ok}
use sim_trade.Settlement.Rows.{LotRow, AllocationRow}
use sim_trade.Settlement.Tables.{count, total, count-update, AreDistinct, occurs}
use sim_trade.Settlement.Consumption.{
  CloseConsumption, lot_of, consumed_lot, consumed_allocation, consume_lots, consume_allocations,
  write_consumptions,
}
use sim_trade.Settlement.Consumption.Lots.{frozen_in}

-- The two unique constraints of the allocations of an order.
pub record AreUnique (allocations : List AllocationRow) : Type 0 where
  pub by_id : AreDistinct (λ a. a.allocation_id) allocations
  pub by_lot : AreDistinct (λ a. a.position_detail_id) allocations

abbrev pub lot_id : LotRow → ℕ
lot_id l = l.position_detail_id

pub count-write_lots :
    (key : ℕ) (is_option : Bool) (cs : List CloseConsumption) (lots : List LotRow)
    → (allocations : List AllocationRow)
    → count lot_id key (write_consumptions is_option cs (lots, allocations)).0
      ≡ count lot_id key lots
unfolding write_consumptions consume_lots consumed_lot
count-write_lots key is_option [] lots allocations = refl
count-write_lots key is_option (c ∷ cs) lots allocations =
    count-write_lots key is_option cs (consume_lots is_option c lots)
      (consume_allocations c allocations)
    ∙ count-update lot_id lot_id key c.detail.position_detail_id (consumed_lot is_option c)
        (λ l. refl) lots

count-write_allocations :
    (id_of : AllocationRow → ℕ)
    → ((c : CloseConsumption) (a : AllocationRow) → id_of (consumed_allocation c a) ≡ id_of a)
    → (key : ℕ) (is_option : Bool) (cs : List CloseConsumption) (lots : List LotRow)
    → (allocations : List AllocationRow)
    → count id_of key (write_consumptions is_option cs (lots, allocations)).1
      ≡ count id_of key allocations
unfolding write_consumptions consume_allocations
count-write_allocations id_of named key is_option [] lots allocations = refl
count-write_allocations id_of named key is_option (c ∷ cs) lots allocations =
    count-write_allocations id_of named key is_option cs (consume_lots is_option c lots)
      (consume_allocations c allocations)
    ∙ count-update (λ a. a.allocation_id) id_of key c.allocation.allocation_id
        (consumed_allocation c) (named c) allocations

lot_of-later :
    (r l : LotRow) (rest : List LotRow)
    → count lot_id l.position_detail_id (r ∷ rest) ≤ 1
    → 1 ≤ count lot_id l.position_detail_id rest
    → lot_of l.position_detail_id rest ≡ ok l
    → lot_of l.position_detail_id (r ∷ rest) ≡ ok l
unfolding lot_of
lot_of-later r l rest most some e =
    elim (Bool-cases (r.position_detail_id == l.position_detail_id)) [
      | inl same ↦ let most' = rw same at most in absurd (omega arith)
      | inr other ↦ rw other e
    ]

-- The lot with the identifier of a row is that row.
pub lot_of-each :
    (lots : List LotRow)
    → AreDistinct lot_id lots
    → All (λ l. lot_of l.position_detail_id lots ≡ ok l) lots
unfolding lot_of
lot_of-each [] d = tt
lot_of-each (r ∷ rest) d =
    let fewer : AreDistinct lot_id rest = λ key. let most = d key in ground arith in
    (
      let same : (r.position_detail_id == r.position_detail_id) ≡ true = ground arith in
          rw same refl,
      All-zip (λ l k e. lot_of-later r l rest (d l.position_detail_id) k e) rest
          (occurs lot_id rest) (lot_of-each rest fewer),
    )

frozen_in-absent :
    (key : ℕ) (allocations : List AllocationRow)
    → count (λ a. a.position_detail_id) key allocations ≡ 0
    → total (frozen_in key) allocations ≡ pos 0
frozen_in-absent key [] h = refl
frozen_in-absent key (a ∷ rest) h = elim (Bool-cases (a.position_detail_id == key)) [
  | inl here ↦ let h' = rw here at h in absurd (omega arith)
  | inr other ↦ rw (other, frozen_in-absent key rest (rw other at h)) (omega int_laws)
]

-- One allocation at most rests on a lot, so what is frozen in the lot is what that one holds.
pub frozen_in-bound :
    (key : ℕ) (held : ℤ) (allocations : List AllocationRow)
    → pos 0 ≤ℤ held
    → count (λ a. a.position_detail_id) key allocations ≤ 1
    → All (λ a. a.position_detail_id ≡ key → a.remaining_frozen_volume ≤ℤ held) allocations
    → total (frozen_in key) allocations ≤ℤ held
frozen_in-bound key held [] low most h = omega arith
frozen_in-bound key held (a ∷ rest) low most (ha, h) =
    elim (Bool-cases (a.position_detail_id == key)) [
      | inl here ↦
          let most' = rw here at most in
          let enough = ha (ground arith) in
          rw (here, frozen_in-absent key rest (omega arith)) (omega int_laws)
      | inr other ↦
          let others = frozen_in-bound key held rest low (rw other at most) h in
          rw other (omega int_laws)
    ]

pub write_allocations_unique :
    (is_option : Bool) (cs : List CloseConsumption) (lots : List LotRow)
    → (allocations : List AllocationRow) → AreUnique allocations
    → AreUnique (write_consumptions is_option cs (lots, allocations)).1
unfolding consumed_allocation
write_allocations_unique is_option cs lots allocations u = record {
  by_id = λ key.
      rw
        (count-write_allocations (λ a. a.allocation_id) (λ c a. refl) key is_option cs lots
          allocations)
        (u.by_id key);
  by_lot = λ key.
      rw
        (count-write_allocations (λ a. a.position_detail_id) (λ c a. refl) key is_option cs lots
          allocations)
        (u.by_lot key);
}
