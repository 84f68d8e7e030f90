-- ===== src/Settlement/Funds/Orders.antt =====
-- The order and its allocations after a fill.
use sim_trade.Prelude.{◌≡◌, ◌∙◌, refl, ap, Bool, List, All}
use sim_trade.Money.{Decimal}
use sim_trade.Prelude.Int.{ℤ, pos, ◌+ℤ◌, ◌-ℤ◌, ◌≤ℤ◌, int_laws}
use sim_trade.Errors.{ok}
use sim_trade.Settlement.Rows.{AllocationRow, LotRow, OrderRow}
use sim_trade.Settlement.Consumption.{Fill, CloseConsumption, consumptions_of, write_consumptions}
use sim_trade.Settlement.Consumption.Laws.{IsUsable, frozen_volume_of}
use sim_trade.Settlement.Tables.{total}
use sim_trade.Settlement.Consumption.Effects.{occurrences}
use sim_trade.Settlement.Consumption.Writes.{write_consumptions_conserves}
use sim_trade.Settlement.Funds.{FillTotals, settle_order}

-- An order and its allocations hold the same frozen volume and commission, which is the order's
-- remaining volume, and the volumes of the order add up.
pub record IsConsistent (o : OrderRow) (allocations : List AllocationRow) : Type 0 where
  pub volumes : o.total_volume ≡ o.traded_volume +ℤ o.remaining_volume +ℤ o.cancelled_volume
  pub remaining : o.frozen_position_volume ≡ o.remaining_volume
  pub frozen_volume : frozen_volume_of allocations ≡ o.frozen_position_volume
  pub frozen_commission :
      total (λ a. a.remaining_frozen_commission) allocations ≡ o.frozen_commission

-- A fill of no more than the remaining volume of a consistent order, whose allocations have
-- identifiers of their own and amounts that are not negative, leaves the order consistent with the
-- allocations that it wrote, as the last check of the settlement demands.
pub settle_order-IsConsistent :
    (f : Fill) (allocations : List AllocationRow) (lots : List LotRow) (n : ℤ)
    → (cs : List CloseConsumption) (o : OrderRow) (t : FillTotals)
    → All (λ a. occurrences a.allocation_id allocations ≡ 1) allocations
    → All IsUsable allocations
    → IsConsistent o allocations
    → pos 0 ≤ℤ n
    → n ≤ℤ o.remaining_volume
    → consumptions_of f allocations n ≡ ok cs
    → t.released_frozen_commission ≡ total (λ c. c.released_frozen_commission) cs
    → IsConsistent
        (settle_order f.is_option t f.fill_price n o)
        (write_consumptions f.is_option cs (lots, allocations)).1
unfolding settle_order
settle_order-IsConsistent f allocations lots n cs o t k h c low high e released =
    let enough : n ≤ℤ frozen_volume_of allocations = rw (c.frozen_volume, c.remaining) high in
    let (volume, commission) =
      write_consumptions_conserves f allocations lots n cs k h low enough e in
    record {
      volumes = c.volumes ∙ omega int_laws;
      remaining = ap (λ (v : ℤ). v -ℤ n) c.remaining;
      frozen_volume = volume ∙ ap (λ (v : ℤ). v -ℤ n) c.frozen_volume;
      frozen_commission = commission ∙ rw (c.frozen_commission, released) refl;
    }

-- A fill of so much moves the volume of an order, and keeps its day.
pub record IsReduced (n : ℤ) (o o' : OrderRow) : Type 0 where
  pub day : o'.trading_day ≡ o.trading_day
  pub traded : o'.traded_volume ≡ o.traded_volume +ℤ n
  pub remaining : o'.remaining_volume ≡ o.remaining_volume -ℤ n
  pub cancelled : o'.cancelled_volume ≡ o.cancelled_volume

pub settle_order-IsReduced :
    (is_option : Bool) (t : FillTotals) (price : Decimal) (n : ℤ) (o : OrderRow)
    → IsReduced n o (settle_order is_option t price n o)
unfolding settle_order
settle_order-IsReduced is_option t price n o = record {
  day = refl;
  traded = refl;
  remaining = refl;
  cancelled = refl;
}
