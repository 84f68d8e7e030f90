-- ===== src/Settlement/Validation.antt =====
-- The checks before anything is written: `_validate_allocation_balance` and `_validate_before_mutation` of
-- `CloseTradeSettlementHandler`, app/services/close_trade_settlement_handler.py.
pub mod Backing
pub mod Laws
use sim_trade.Prelude.{
  ℕ, Bool, true, false, not, ◌&&◌, ◌||◌, Option, none, some, List, [], ◌∷◌, ◌++◌, length, ◌==◌, ltb,
  if◌then◌else◌,
}
use sim_trade.Prelude.Int.{ℤ, pos, ◌+ℤ◌, ltb_ℤ, leb_ℤ, eqb_ℤ}
use sim_trade.Errors.{
  Result, ok, err, ◌>>=◌, ◌>>◌, raise_if, close_allocation_inconsistent, value_error,
}
use sim_trade.Enums.{
  OffsetFlag, close_today, close_yesterday, PositionDirection, CommissionType, same_offset,
  same_commission, same_position,
}
use sim_trade.Money.{Money, same_decimal}
use sim_trade.Fees.Buckets.{FeeBucketKey, FeeBucketEntry, calculate_bucket_allocations}
use sim_trade.Settlement.Rows.{LotRow, AllocationRow, OrderRow, PositionRow}
use sim_trade.Settlement.Consumption.{lot_of}

abbrev pub RawKey : Type 0
RawKey = FeeBucketKey (Option CommissionType)

abbrev pub demand : Bool → Result (Unit {0})
demand test = raise_if (not test) close_allocation_inconsistent

-- `_validate_allocation_balance`
abbrev pub volumes_balance : AllocationRow → Bool
volumes_balance a =
    eqb_ℤ a.original_frozen_volume
      (a.remaining_frozen_volume +ℤ a.consumed_volume +ℤ a.released_volume)
    && (ltb_ℤ (pos 0) a.original_frozen_volume
        && (leb_ℤ (pos 0) a.remaining_frozen_volume
            && (leb_ℤ (pos 0) a.consumed_volume && leb_ℤ (pos 0) a.released_volume)))

abbrev pub commissions_balance : AllocationRow → Bool
commissions_balance a =
    eqb_ℤ a.original_frozen_commission
      (a.remaining_frozen_commission +ℤ a.consumed_commission +ℤ a.released_commission)
    && (leb_ℤ (pos 0) a.remaining_frozen_commission
        && (leb_ℤ (pos 0) a.consumed_commission && leb_ℤ (pos 0) a.released_commission))

pub validate_allocation_balance : AllocationRow → Result (Unit {0})
validate_allocation_balance a = demand (volumes_balance a) >> demand (commissions_balance a)

abbrev pub has_side : PositionDirection → Option PositionDirection → Bool
has_side side none = false
has_side side (some d) = same_position d side

abbrev pub allocation_belongs : OrderRow → PositionRow → AllocationRow → Bool
allocation_belongs o p a =
    a.order_id == o.order_id
    && (a.position_id == p.position_id
        && (a.account_id == o.account_id
            && (a.exchange_id == o.exchange_id && a.symbol == o.symbol)))

abbrev pub is_resolved : OffsetFlag → Bool
is_resolved flag = same_offset flag close_today || same_offset flag close_yesterday

-- `detail_map.get(...)`, which must find one
abbrev pub required_lot : Result LotRow → Result LotRow
required_lot (ok l) = ok l
required_lot (err code) = err close_allocation_inconsistent

abbrev pub lot_belongs : OrderRow → PositionRow → PositionDirection → LotRow → Bool
lot_belongs o p side l =
    l.position_id == p.position_id
    && (l.account_id == o.account_id
        && (l.exchange_id == o.exchange_id && (l.symbol == o.symbol && has_side side l.direction)))

-- `expected_resolved_offset`; a lot that was opened after the day of the order has none.
abbrev pub expected_flag : OrderRow → LotRow → Option OffsetFlag
expected_flag o l =
    if l.open_trading_day == o.trading_day
    then some close_today
    else if ltb l.open_trading_day o.trading_day
    then some close_yesterday
    else none

abbrev pub is_expected : OffsetFlag → Option OffsetFlag → Bool
is_expected flag none = false
is_expected flag (some expected) = same_offset flag expected

abbrev pub lot_covers : AllocationRow → LotRow → Bool
lot_covers a l =
    leb_ℤ a.remaining_frozen_volume l.frozen_volume
    && leb_ℤ a.remaining_frozen_volume l.remaining_volume

-- The tests of one turn of the loop.
pub check_allocation :
    OrderRow → PositionRow → PositionDirection → List LotRow → AllocationRow → Result (Unit {0})
unfolding validate_allocation_balance
check_allocation o p side lots a = do
  validate_allocation_balance a
  demand (allocation_belongs o p a)
  demand (is_resolved a.key.resolved_offset_flag)
  l ← required_lot (lot_of a.position_detail_id lots)
  demand (lot_belongs o p side l)
  demand (is_expected a.key.resolved_offset_flag (expected_flag o l))
  demand (lot_covers a l)

-- Keys of the dicts are equal by their texts. Two texts that name no type stand for one here: the fees
-- raise for them before the dicts are compared.
abbrev same_type : Option CommissionType → Option CommissionType → Bool
same_type none none = true
same_type (some s) (some t) = same_commission s t
same_type _ _ = false

same_raw_key : RawKey → RawKey → Bool
same_raw_key j k =
    same_offset j.resolved_offset_flag k.resolved_offset_flag
    && (same_type j.commission_type k.commission_type
        && (same_decimal j.commission_parameter k.commission_parameter
            && same_decimal j.commission_contract_multiplier k.commission_contract_multiplier))

abbrev pub Totals : Type 0
Totals = List (RawKey × Money)

-- `totals[key] = quantize_money(totals.get(key, 0) + amount)`
pub add_total : RawKey → Money → Totals → Totals
unfolding same_raw_key
add_total k amount [] = (k, amount) ∷ []
add_total k amount ((j, sum) ∷ rest) =
    if same_raw_key j k then (j, sum +ℤ amount) ∷ rest else (j, sum) ∷ add_total k amount rest

-- The item of the dict is equal.
has_total : RawKey → Money → Totals → Bool
unfolding same_raw_key
has_total k amount [] = false
has_total k amount ((j, sum) ∷ rest) =
    if same_raw_key j k then eqb_ℤ sum amount else has_total k amount rest

all_in : Totals → Totals → Bool
unfolding has_total
all_in [] other = true
all_in ((k, amount) ∷ rest) other = has_total k amount other && all_in rest other

-- `==` of the dicts
pub same_totals : Totals → Totals → Bool
unfolding all_in
same_totals a b = (length a == length b) && all_in a b

-- What the loop gathers.
pub record Gathered : Type 0 where
  pub volume : ℤ
  pub commission : Money
  pub entries : List FeeBucketEntry
  pub actual : Totals

abbrev pub gathered : Gathered → AllocationRow → Gathered
unfolding add_total
gathered g a = record {
  volume = g.volume +ℤ a.remaining_frozen_volume;
  commission = g.commission +ℤ a.remaining_frozen_commission;
  entries = g.entries ++ record { key = a.key; volume = a.original_frozen_volume } ∷ [];
  actual = add_total a.key a.original_frozen_commission g.actual;
}

pub gather :
    OrderRow
    → PositionRow
    → PositionDirection
    → List LotRow
    → List AllocationRow
    → Gathered
    → Result Gathered
unfolding check_allocation gathered
gather o p side lots [] g = ok g
gather o p side lots (a ∷ rest) g =
    check_allocation o p side lots a >> gather o p side lots rest (gathered g a)

-- The expected totals; `zip(..., strict=True)`.
pub expected_totals : List FeeBucketEntry → List Money → Totals → Result Totals
unfolding add_total
expected_totals [] [] totals = ok totals
expected_totals (e ∷ entries) (share ∷ shares) totals =
    expected_totals entries shares (add_total e.key share totals)
expected_totals _ _ totals = err value_error

abbrev pub has_none : List AllocationRow → Bool
has_none [] = true
has_none (a ∷ rest) = false

abbrev pub nothing : Gathered
nothing = record { volume = pos 0; commission = pos 0; entries = []; actual = [] }

unfoldable pub validate_before_mutation :
    OrderRow
    → PositionRow
    → List LotRow
    → List AllocationRow
    → ℤ
    → PositionDirection
    → Result (Unit {0})
unfolding gather expected_totals same_totals
validate_before_mutation o p lots allocations fill_volume side = do
  demand (ltb_ℤ (pos 0) fill_volume && leb_ℤ fill_volume o.remaining_volume)
  demand (eqb_ℤ o.total_volume (o.traded_volume +ℤ o.remaining_volume +ℤ o.cancelled_volume))
  demand (has_side side p.direction)
  demand (not (has_none allocations))
  g ← gather o p side lots allocations nothing
  shares ← calculate_bucket_allocations o.limit_price g.entries
  expected ← expected_totals g.entries shares []
  demand (same_totals expected g.actual)
  demand
      (eqb_ℤ g.volume o.frozen_position_volume && eqb_ℤ o.frozen_position_volume o.remaining_volume)
  demand (eqb_ℤ g.commission o.frozen_commission)
