-- ===== src/Settlement/Close/Lots.antt =====
-- The lots of a position after the writes of a closing fill.
use sim_trade.Prelude.{ℕ, ◌≡◌, ◌∙◌, sym, List, [], ◌∷◌, All, All-map, All-zip, arith}
use sim_trade.Prelude.Int.{ℤ, ◌-ℤ◌, ◌≤ℤ◌}
use sim_trade.Errors.{ok, ok-injective}
use sim_trade.Settlement.Rows.{LotRow, AllocationRow, PositionRow, OrderRow}
use sim_trade.Settlement.Tables.{count, total, AreDistinct, occurs_once}
use sim_trade.Settlement.Consumption.{Fill, CloseConsumption, write_consumptions, lot_of}
use sim_trade.Settlement.Consumption.Laws.{HoldsOf}
use sim_trade.Settlement.Consumption.Writes.{total-volume_of}
use sim_trade.Settlement.Consumption.Effects.{IsSettling}
use sim_trade.Settlement.Consumption.Lots.{lot_of-found, write_lots_volumes, write_lots_held}
use sim_trade.Settlement.Consumption.Keys.{
  lot_id, count-write_lots, AreUnique, lot_of-each, frozen_in-bound,
}
use sim_trade.Settlement.Validation.Backing.{IsBacked}
use sim_trade.Settlement.Close.Position.Volumes.{IsHeld}

-- The volumes of a position are the sums over its lots, none of which is opened after the day or
-- negative, and no lot stands twice.
pub record IsPositioned (day : ℕ) (lots : List LotRow) (p : PositionRow) : Type 0 where
  pub total_volume : total (λ l. l.remaining_volume) lots ≡ p.total_volume
  pub frozen_volume : total (λ l. l.frozen_volume) lots ≡ p.frozen_volume
  pub held : All (IsHeld day) lots
  pub distinct : AreDistinct lot_id lots

abbrev pub StandsOnce : List LotRow → AllocationRow → LotRow → Type 0
StandsOnce lots a l = count lot_id l.position_detail_id lots ≡ 1

pub stands_once :
    (lots : List LotRow) (allocations : List AllocationRow)
    → AreDistinct lot_id lots
    → HoldsOf (StandsOnce lots) lots allocations
stands_once lots [] d = tt
stands_once lots (a ∷ rest) d = (
  λ l e.
      ((lot_of-found (λ l. count lot_id l.position_detail_id lots ≡ 1) a.position_detail_id lots
          (occurs_once lot_id lots d)).ensured
        e).0,
  stands_once lots rest d,
)

-- A lot holds what is frozen in it.
held_by :
    (o : OrderRow) (lots : List LotRow) (allocations : List AllocationRow) (l : LotRow)
    → All (IsBacked o lots) allocations
    → lot_of l.position_detail_id lots ≡ ok l
    → All
        (λ a.
          a.position_detail_id ≡ l.position_detail_id
          → a.remaining_frozen_volume ≤ℤ l.remaining_volume)
        allocations
held_by o lots allocations l h found =
    All-map (λ a b same. let that = ok-injective (sym found ∙ rw same at b.found) in rw that b.held)
      allocations h

-- The lots after the writes of consumptions that a consistent position was asked for.
module _ (day : ℕ) (o : OrderRow) (f : Fill) (p : PositionRow) (allocations : List AllocationRow)
    (n : ℤ) (cs : List CloseConsumption) (unique : AreUnique allocations)
    (positioned : IsPositioned day f.lots p) (backed : All (IsBacked o f.lots) allocations)
    (settling : IsSettling f allocations (StandsOnce f.lots) n cs) where
  lots_after-held : All (IsHeld day) (write_consumptions f.is_option cs (f.lots, allocations)).0
  lots_after-held =
      All-map (λ l (opened, low). (low, opened))
        (write_consumptions f.is_option cs (f.lots, allocations)).0
        (write_lots_held day f.is_option cs f.lots allocations (
          All-zip
            (λ l (low, opened) found.
              let most =
                frozen_in-bound l.position_detail_id l.remaining_volume allocations low
                  (unique.by_lot l.position_detail_id)
                  (held_by o f.lots allocations l backed found) in
              let within = settling.within l.position_detail_id in (opened, omega arith))
            f.lots positioned.held (lot_of-each f.lots positioned.distinct)))

  pub taken : total (λ c. c.volume) cs ≡ n
  taken = total-volume_of cs ∙ settling.volume

  pub lots_after-IsPositioned :
      (q : PositionRow)
      → q.total_volume ≡ p.total_volume -ℤ n
      → q.frozen_volume ≡ p.frozen_volume -ℤ n
      → IsPositioned day (write_consumptions f.is_option cs (f.lots, allocations)).0 q
  lots_after-IsPositioned q volume frozen =
      let (v, w) = write_lots_volumes f.is_option cs f.lots allocations settling.kept in
      record {
        total_volume = v ∙ rw (positioned.total_volume, taken) (sym volume);
        frozen_volume = w ∙ rw (positioned.frozen_volume, taken) (sym frozen);
        held = lots_after-held;
        distinct = λ key.
            rw (count-write_lots key f.is_option cs f.lots allocations) (positioned.distinct key);
      }
