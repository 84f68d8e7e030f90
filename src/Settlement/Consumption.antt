-- ===== src/Settlement/Consumption.antt =====
-- What a fill of a closing order takes from the frozen allocations and from the lots:
-- `CloseTradeSettlementHandler`, app/services/close_trade_settlement_handler.py, the computation of the
-- consumptions and their effect on lots, allocations and the volumes of the order. A call that raises is
-- rolled back by the caller.
pub mod Laws
pub mod Effects
pub mod Writes
pub mod Lots
pub mod Keys
pub mod Tests
use sim_trade.Prelude.{
  ℕ, Bool, true, false, not, ◌&&◌, ◌||◌, Option, none, some, List, [], ◌∷◌, map, ◌==◌,
  if◌then◌else◌,
}
use sim_trade.Prelude.Int.{ℤ, pos, ◌+ℤ◌, ◌-ℤ◌, leb_ℤ, eqb_ℤ, min_ℤ, max_ℤ}
use sim_trade.Errors.{
  Result, ok, err, ◌>>=◌, ◌>>◌, raise_if, close_allocation_inconsistent,
  close_multiplier_snapshot_inconsistent, value_error, key_error,
}
use sim_trade.Enums.{
  OrderDirection, OrderStatus, filled, partially_filled, PositionDirection, CommissionType,
}
use sim_trade.Money.{Decimal, Money, of_money, same_decimal, is_nonpositive}
use sim_trade.Fees.Buckets.{FeeBucketKey, FeeBucketEntry, calculate_bucket_allocations}
use sim_trade.Positions.MarginRelease.{release_margin, allocate_frozen_commission}
use sim_trade.Orders.Allocations.{active, consumed}
use sim_trade.Settlement.Rows.{LotRow, AllocationRow, open_detail, closed_detail}
use sim_trade.Settlement.Tables.{update}
use sim_trade.Positions.Pnl.{calculate, calculate_close}

-- The facts of the fill, its order and its position that the loop reads, and the locked lots.
pub record Fill : Type 0 where
  pub is_option : Bool
  pub order_direction : Option OrderDirection
  pub position_direction : Option PositionDirection
  pub fill_price : Decimal
  pub position_multiplier : Decimal
  pub lots : List LotRow

-- `_CloseConsumption`
pub record CloseConsumption : Type 0 where
  pub allocation : AllocationRow
  pub detail : LotRow
  pub volume : ℤ
  pub released_margin : Money
  pub released_realtime_margin : Money
  pub released_frozen_commission : Money
  pub actual_commission : Money
  pub realized_pnl : Money
  pub daily_close_pnl : Money

-- `detail_map[...]`; the identifiers of the lots are their primary keys.
unfoldable pub lot_of : ℕ → List LotRow → Result LotRow
lot_of key [] = err key_error
lot_of key (l ∷ rest) =
    let others = lot_of key rest in if l.position_detail_id == key then ok l else others

abbrev pub realtime_part : Bool → LotRow → ℤ → Result Money
realtime_part true l taken = release_margin l.realtime_required_margin taken l.remaining_volume
realtime_part false l taken = ok (pos 0)

-- The body of the loop for an allocation of which so much is consumed.
pub consume_one : Fill → AllocationRow → ℤ → Result CloseConsumption
unfolding lot_of
consume_one f a taken = do
  l ← lot_of a.position_detail_id f.lots
  raise_if
      (is_nonpositive l.multiplier_snapshot
        || not (same_decimal l.multiplier_snapshot f.position_multiplier))
      close_multiplier_snapshot_inconsistent
  margin ← release_margin l.remaining_margin taken l.remaining_volume
  realtime ← realtime_part f.is_option l taken
  realized ← calculate f.order_direction l.open_price f.fill_price taken l.multiplier_snapshot
  daily ←
      calculate_close f.position_direction f.fill_price l.open_price l.pnl_base_price taken
        l.multiplier_snapshot
  ok record {
    allocation = a;
    detail = l;
    volume = taken;
    released_margin = margin;
    released_realtime_margin = realtime;
    released_frozen_commission =
        allocate_frozen_commission a.remaining_frozen_commission taken a.remaining_frozen_volume;
    actual_commission = pos 0;
    realized_pnl = realized;
    daily_close_pnl = daily.daily_close_pnl;
  }

-- The loop: what is left to consume after it, and the consumptions.
pub consume : Fill → List AllocationRow → ℤ → Result (ℤ × List CloseConsumption)
unfolding consume_one
consume f [] remaining = ok (remaining, [])
consume f (a ∷ rest) remaining =
    let taken = min_ℤ a.remaining_frozen_volume remaining in
    let skipped = consume f rest remaining in
    let continued = consume f rest (remaining -ℤ taken) in
    if eqb_ℤ remaining (pos 0)
    then ok (remaining, [])
    else if leb_ℤ a.remaining_frozen_volume (pos 0)
    then skipped
    else consume_one f a taken >>= λ (c : CloseConsumption).
        continued >>= λ (last : ℤ × List CloseConsumption). ok (last.0, c ∷ last.1)

abbrev pub entry_of : CloseConsumption → FeeBucketEntry
entry_of c = record { key = c.allocation.key; volume = c.volume }

-- `zip(..., strict=True)`
pub with_commissions : List CloseConsumption → List Money → Result (List CloseConsumption)
with_commissions [] [] = ok []
with_commissions (c ∷ cs) (commission ∷ rest) =
    with_commissions cs rest >>= λ (done : List CloseConsumption).
    ok (record c { actual_commission = commission } ∷ done)
with_commissions _ _ = err value_error

pub consumptions_of : Fill → List AllocationRow → ℤ → Result (List CloseConsumption)
unfolding consume with_commissions
consumptions_of f allocations fill_volume = do
  (left, consumptions) ← consume f allocations fill_volume
  raise_if (not (eqb_ℤ left (pos 0))) close_allocation_inconsistent
  commissions ← calculate_bucket_allocations f.fill_price (map entry_of consumptions)
  with_commissions consumptions commissions

-- A consumption takes its part from its lot.
pub consumed_lot : Bool → CloseConsumption → LotRow → LotRow
consumed_lot is_option c l =
    let left = l.remaining_volume -ℤ c.volume in
    record l {
      remaining_volume = left;
      frozen_volume = l.frozen_volume -ℤ c.volume;
      remaining_margin = l.remaining_margin -ℤ c.released_margin;
      realtime_required_margin =
          if is_option
          then max_ℤ (l.realtime_required_margin -ℤ c.released_realtime_margin) (pos 0)
          else l.realtime_required_margin;
      status = if eqb_ℤ left (pos 0) then closed_detail else open_detail;
    }

pub consumed_allocation : CloseConsumption → AllocationRow → AllocationRow
consumed_allocation c a =
    let left = a.remaining_frozen_volume -ℤ c.volume in
    record a {
      remaining_frozen_volume = left;
      consumed_volume = a.consumed_volume +ℤ c.volume;
      remaining_frozen_commission = a.remaining_frozen_commission -ℤ c.released_frozen_commission;
      consumed_commission = a.consumed_commission +ℤ c.released_frozen_commission;
      status = if eqb_ℤ left (pos 0) then consumed else active;
    }

-- The row that the consumption names, in place.
unfoldable pub consume_lots : Bool → CloseConsumption → List LotRow → List LotRow
consume_lots is_option c =
    update (λ l. l.position_detail_id) c.detail.position_detail_id (consumed_lot is_option c)

unfoldable pub consume_allocations : CloseConsumption → List AllocationRow → List AllocationRow
consume_allocations c =
    update (λ a. a.allocation_id) c.allocation.allocation_id (consumed_allocation c)

-- The loop that writes the lots and the allocations.
pub write_consumptions :
    Bool
    → List CloseConsumption
    → List LotRow × List AllocationRow
    → List LotRow × List AllocationRow
unfolding consume_lots consume_allocations
write_consumptions is_option [] rows = rows
write_consumptions is_option (c ∷ cs) (lots, allocations) =
    write_consumptions is_option cs
      (consume_lots is_option c lots, consume_allocations c allocations)
