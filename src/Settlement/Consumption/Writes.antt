-- ===== src/Settlement/Consumption/Writes.antt =====
-- What a fill writes: each allocation loses what was consumed of it, once.
use sim_trade.Prelude.{◌≡◌, ◌∙◌, refl, sym, ap, Bool, List, [], ◌∷◌, map, All}
use sim_trade.Prelude.Int.{ℤ, pos, ◌+ℤ◌, ◌-ℤ◌, ◌≤ℤ◌, int_laws}
use sim_trade.Errors.{ok}
use sim_trade.Fees.Buckets.{Bucket, group_entries}
use sim_trade.Fees.Buckets.Conservation.{bucket_fees}
use sim_trade.Settlement.Rows.{AllocationRow, LotRow}
use sim_trade.Settlement.Tables.{total, total_once}
use sim_trade.Settlement.Consumption.{
  Fill, CloseConsumption, entry_of, consumptions_of, consumed_allocation, consume_lots,
  consume_allocations, write_consumptions,
}
use sim_trade.Settlement.Consumption.Laws.{
  trivially, whatever_lot, IsUsable, IsShare, frozen_volume_of, volume_of,
}
use sim_trade.Settlement.Consumption.Effects.{
  commission_of, consumptions_of-IsSettling, occurrences, occurrences-consume_allocations,
}

abbrev pub AreNamed : List AllocationRow → List CloseConsumption → Type 0
AreNamed allocations cs = All (λ c. occurrences c.allocation.allocation_id allocations ≡ 1) cs

AreNamed-consume_allocations :
    (b : CloseConsumption) (allocations : List AllocationRow) (cs : List CloseConsumption)
    → AreNamed allocations cs
    → AreNamed (consume_allocations b allocations) cs
AreNamed-consume_allocations b allocations [] h = tt
AreNamed-consume_allocations b allocations (c ∷ cs) (hc, h) = (
  occurrences-consume_allocations c.allocation.allocation_id b allocations ∙ hc,
  AreNamed-consume_allocations b allocations cs h,
)

-- A column from which each consumption takes its part.
write_total :
    (column : AllocationRow → ℤ) (part : CloseConsumption → ℤ)
    → ((c : CloseConsumption) (a : AllocationRow)
        → column (consumed_allocation c a) ≡ column a -ℤ part c)
    → (is_option : Bool) (cs : List CloseConsumption) (lots : List LotRow)
    → (allocations : List AllocationRow) → AreNamed allocations cs
    → total column (write_consumptions is_option cs (lots, allocations)).1
      ≡ total column allocations -ℤ total part cs
unfolding write_consumptions consume_allocations
write_total column part taken is_option [] lots allocations h = omega int_laws
write_total column part taken is_option (c ∷ cs) lots allocations (hc, h) =
    let first =
      total_once (λ a. a.allocation_id) column c.allocation.allocation_id (consumed_allocation c)
        (part c) (taken c) allocations hc in
    let others =
      write_total column part taken is_option cs (consume_lots is_option c lots)
        (consume_allocations c allocations) (AreNamed-consume_allocations c allocations cs h) in
    others ∙ rw first (omega int_laws)

volume_taken :
    (c : CloseConsumption) (a : AllocationRow)
    → (consumed_allocation c a).remaining_frozen_volume ≡ a.remaining_frozen_volume -ℤ c.volume
unfolding consumed_allocation
volume_taken c a = refl

commission_taken :
    (c : CloseConsumption) (a : AllocationRow)
    → (consumed_allocation c a).remaining_frozen_commission
      ≡ a.remaining_frozen_commission -ℤ c.released_frozen_commission
unfolding consumed_allocation
commission_taken c a = refl

pub total-volume_of : (cs : List CloseConsumption) → total (λ c. c.volume) cs ≡ volume_of cs
total-volume_of [] = refl
total-volume_of (c ∷ cs) = ap (λ (v : ℤ). c.volume +ℤ v) (total-volume_of cs)

pub total-frozen_volume_of :
    (allocations : List AllocationRow)
    → total (λ a. a.remaining_frozen_volume) allocations ≡ frozen_volume_of allocations
total-frozen_volume_of [] = refl
total-frozen_volume_of (a ∷ rest) =
    ap (λ (v : ℤ). a.remaining_frozen_volume +ℤ v) (total-frozen_volume_of rest)

-- A fill of so much volume that is frozen in allocations with identifiers of their own, written to
-- the rows: the frozen volume falls by the fill, and the frozen commission by what the consumptions
-- release, as the final checks of the settlement demand.
pub write_consumptions_conserves :
    (f : Fill) (allocations : List AllocationRow) (lots : List LotRow) (n : ℤ)
    → (cs : List CloseConsumption)
    → All (λ a. occurrences a.allocation_id allocations ≡ 1) allocations
    → All IsUsable allocations
    → pos 0 ≤ℤ n
    → n ≤ℤ frozen_volume_of allocations
    → consumptions_of f allocations n ≡ ok cs
    → (frozen_volume_of (write_consumptions f.is_option cs (lots, allocations)).1
        ≡ frozen_volume_of allocations -ℤ n)
      × (total
            (λ a. a.remaining_frozen_commission)
            (write_consumptions f.is_option cs (lots, allocations)).1
          ≡ total (λ a. a.remaining_frozen_commission) allocations
            -ℤ total (λ c. c.released_frozen_commission) cs)
write_consumptions_conserves f allocations lots n cs k h low high e =
    let s =
      (consumptions_of-IsSettling (λ a _. occurrences a.allocation_id allocations ≡ 1) f allocations
          n (whatever_lot _ f.lots allocations k) h low high).ensured
        e in
    let volumes =
      write_total (λ a. a.remaining_frozen_volume) (λ c. c.volume) volume_taken f.is_option cs lots
        allocations s.kept in
    (
      sym (total-frozen_volume_of (write_consumptions f.is_option cs (lots, allocations)).1)
          ∙ volumes
          ∙ rw (total-frozen_volume_of allocations, total-volume_of cs, s.volume) refl,
      write_total (λ a. a.remaining_frozen_commission) (λ c. c.released_frozen_commission)
          commission_taken f.is_option cs lots allocations s.kept,
    )

-- The consumptions of a fill whose volume the allocations hold add up to it, none takes more volume,
-- margin or frozen commission than its allocation and its lot have, and their actual commissions add up
-- to the fees of the buckets at the price of the fill.
pub consumptions_of_fees :
    (f : Fill) (allocations : List AllocationRow) (n : ℤ) (cs : List CloseConsumption)
    → All IsUsable allocations
    → pos 0 ≤ℤ n
    → n ≤ℤ frozen_volume_of allocations
    → consumptions_of f allocations n ≡ ok cs
    → (volume_of cs ≡ n)
      × All IsShare cs
      × ((grouped : List Bucket) × (group_entries (map entry_of cs) 0 [] ≡ ok grouped)
          × (bucket_fees f.fill_price (map entry_of cs) grouped ≡ ok (commission_of cs)))
consumptions_of_fees f allocations n cs h low high e =
    let s =
      (consumptions_of-IsSettling (λ _ _. Unit {0}) f allocations n (trivially f.lots allocations) h
          low high).ensured
        e in
    (s.volume, s.parts, (s.buckets, s.grouped, s.fees))
