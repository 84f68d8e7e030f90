-- ===== src/Orders/Cancellation.antt =====
-- `OrderCancellationService.cancel_order`, app/services/order_cancellation_service.py. The rows are
-- what the locking queries gave; an exception rolls the transaction back, so a call that raises
-- leaves them as they were. The `updated_at` columns, which nothing reads, are left out.
pub mod Steps
pub mod Laws
pub mod Resources
pub mod Lots
mod Tests
use sim_trade.Prelude.{
  ℕ, Bool, true, false, not, ◌&&◌, ◌||◌, Option, none, some, List, [], ◌∷◌, ◌++◌, ◌==◌,
  if◌then◌else◌,
}
use sim_trade.Prelude.Int.{ℤ, pos, ◌+ℤ◌, ◌-ℤ◌, ltb_ℤ, leb_ℤ, eqb_ℤ}
use sim_trade.Errors.{
  ErrorCode, Result, ok, err, ◌>>=◌, ◌>>◌, raise_if, order_not_cancellable,
  cancel_order_state_inconsistent, cancel_position_inconsistent, cancel_order_volume_inconsistent,
  daily_settlement_trading_closed, resource_not_found, order_not_found, order_account_mismatch,
  product_strategy_not_registered,
}
use sim_trade.Enums.{
  OrderDirection, sell, OffsetFlag, open_flag, OrderType, market, OrderStatus, accepted,
  partially_filled, partially_cancelled, filled, cancelled, PositionDirection, long, short,
  same_position, InstrumentType, futures, futures_option, index_option, stock, convertible_bond,
}
use sim_trade.Money.{Money}
use sim_trade.Orders.Account.{Account}
use sim_trade.Orders.Freeze.{release_open_order_frozen_resources, release_close_order_commission}
use sim_trade.Orders.Rows.{
  CancelReason, market_remainder_cancelled, user_request, Order, Position, Event, order_cancelled,
  order_partially_cancelled, account_updated, position_updated, Rows, Request,
}
use sim_trade.Orders.Allocations.{
  Lot, PositionFreezeAllocation, AllocationOwner, allocation_volume, allocation_commission,
  are_consistent, release_all,
}

-- The instrument types of the registered strategies, app/services/product_strategy_registry.py.
pub has_product_strategy : Option InstrumentType → Bool
has_product_strategy (some futures) = true
has_product_strategy (some futures_option) = true
has_product_strategy (some index_option) = true
has_product_strategy (some stock) = true
has_product_strategy (some convertible_bond) = true
has_product_strategy _ = false

pub not_found : Request → ErrorCode
not_found r = if r.conceal_resource_existence then resource_not_found else order_not_found

abbrev pub required : {A : Type 0} → ErrorCode → Option A → Result A
required code none = err code
required code (some x) = ok x

-- `order.status in IDEMPOTENT_STATUSES`
abbrev pub is_idempotent : Option OrderStatus → Bool
is_idempotent (some cancelled) = true
is_idempotent (some partially_cancelled) = true
is_idempotent _ = false

-- `order.status in CANCELLABLE_STATUSES`
abbrev pub is_cancellable : Option OrderStatus → Bool
is_cancellable (some accepted) = true
is_cancellable (some partially_filled) = true
is_cancellable _ = false

abbrev pub is_filled : Option OrderStatus → Bool
is_filled (some filled) = true
is_filled _ = false

abbrev pub is_refused_type : Bool → Option OrderType → Bool
is_refused_type auto none = true
is_refused_type auto (some market) = not auto
is_refused_type auto (some _) = false

-- The frozen resources that an order of this flag must have.
pub check_frozen : Order → Option OffsetFlag → Result (Unit {0})
check_frozen o none = err order_not_cancellable
check_frozen o (some open_flag) =
    raise_if (not (eqb_ℤ o.frozen_position_volume (pos 0))) cancel_order_state_inconsistent
check_frozen o (some _) =
    raise_if
      (not (eqb_ℤ o.frozen_margin (pos 0))
        || not (eqb_ℤ o.frozen_position_volume o.remaining_volume))
      cancel_order_state_inconsistent

pub check_order : Request → Order → Result (Unit {0})
unfolding check_frozen
check_order r o = do
  raise_if (is_refused_type r.market_auto_cancel o.order_type) order_not_cancellable
  raise_if (not (is_cancellable o.status)) order_not_cancellable
  raise_if (leb_ℤ o.remaining_volume (pos 0)) cancel_order_state_inconsistent
  check_frozen o o.offset_flag

pub position_direction_of : Option OrderDirection → PositionDirection
position_direction_of (some sell) = long
position_direction_of _ = short

abbrev pub is_direction : PositionDirection → Option PositionDirection → Bool
is_direction d none = false
is_direction d (some e) = same_position d e

abbrev is_nil : {A : Type 0} → List A → Bool
is_nil [] = true
is_nil (_ ∷ _) = false

pub owner_of : Order → Position → PositionDirection → AllocationOwner
owner_of o p d = record {
  order_id = o.order_id;
  position_id = p.position_id;
  account_id = o.account_id;
  exchange_id = o.exchange_id;
  symbol = o.symbol;
  position_direction = d;
  trading_day = o.trading_day;
}

abbrev pub sums_differ : Order → List PositionFreezeAllocation → Bool
sums_differ o allocations =
    is_nil allocations
    || (not (eqb_ℤ (allocation_volume allocations) o.remaining_volume)
        || (not (eqb_ℤ (allocation_volume allocations) o.frozen_position_volume)
            || not (eqb_ℤ (allocation_commission allocations) o.frozen_commission)))

pub unfreeze_position : ℤ → Position → Position
unfreeze_position volume p = record p {
  frozen_volume = p.frozen_volume -ℤ volume;
  available_volume = p.total_volume -ℤ (p.frozen_volume -ℤ volume) -ℤ p.settlement_locked_volume;
}

-- What a closing order gives back of its position: the rows of position, lots and allocations.
pub release_position :
    Order
    → Option Position
    → List Lot
    → List PositionFreezeAllocation
    → Result (Position × List Lot × List PositionFreezeAllocation)
unfolding position_direction_of owner_of unfreeze_position
release_position o position lots allocations = do
  let d = position_direction_of o.direction
  p ← required cancel_position_inconsistent position
  raise_if (not (is_direction d p.direction)) cancel_position_inconsistent
  raise_if (sums_differ o allocations) cancel_position_inconsistent
  raise_if (not (are_consistent (owner_of o p d) lots allocations)) cancel_position_inconsistent
  raise_if (ltb_ℤ p.frozen_volume o.remaining_volume) cancel_position_inconsistent
  let (allocations', lots') = release_all allocations lots
  ok (unfreeze_position o.remaining_volume p, lots', allocations')

pub is_open : Option OffsetFlag → Bool
is_open (some open_flag) = true
is_open _ = false

abbrev pub on_account : Result (Unit {0}) × Account → Result Account
on_account (ok _, a) = ok a
on_account (err e, a) = err e

-- The account with the order's frozen funds given back.
pub release_funds : Order → Account → Result Account
release_funds o a =
    if is_open o.offset_flag
    then on_account
        (release_open_order_frozen_resources o.frozen_margin o.frozen_commission o.frozen_cash a)
    else on_account (release_close_order_commission o.frozen_commission o.frozen_cash a)

-- The order after its cancellation.
pub cancelled_order : Request → Order → Order
cancelled_order r o = record o {
  cancelled_volume = o.cancelled_volume +ℤ o.remaining_volume;
  remaining_volume = pos 0;
  frozen_margin = pos 0;
  margin_risk_is_normal = true;
  frozen_cash = pos 0;
  frozen_commission = pos 0;
  frozen_position_volume = if is_open o.offset_flag then o.frozen_position_volume else pos 0;
  cancelled_at = some r.now;
  cancel_reason_code =
      some (if r.market_auto_cancel then market_remainder_cancelled else user_request);
  status = some (if eqb_ℤ o.traded_volume (pos 0) then cancelled else partially_cancelled);
}

cancel_event : Order → Order → Event
cancel_event o o' =
    if eqb_ℤ o.traded_volume (pos 0)
    then order_cancelled o' o.frozen_margin o.frozen_cash o.frozen_commission
    else order_partially_cancelled o' o.frozen_margin o.frozen_cash o.frozen_commission

pub check_volume : Order → Result (Unit {0})
check_volume o =
    raise_if
      (not (eqb_ℤ o.total_volume (o.traded_volume +ℤ o.remaining_volume +ℤ o.cancelled_volume)))
      cancel_order_volume_inconsistent

pub record Released : Type 0 where
  pub account : Account
  pub position : Option Position
  pub lots : List Lot
  pub allocations : List PositionFreezeAllocation

-- An opening order gives funds back; a closing order its position first.
abbrev pub release_open : Order → Account → Rows → Result Released
release_open o a rows = do
  a' ← release_funds o a
  ok (record { account = a'; position = none; lots = rows.lots; allocations = rows.allocations })

abbrev pub release_close : Order → Account → Rows → Result Released
release_close o a rows = do
  (p', lots', allocations') ← release_position o rows.position rows.lots rows.allocations
  a' ← release_funds o a
  ok (record { account = a'; position = some p'; lots = lots'; allocations = allocations' })

pub release_resources : Order → Account → Rows → Result Released
unfolding release_position release_funds
release_resources o a rows =
    if is_open o.offset_flag then release_open o a rows else release_close o a rows

abbrev pub position_events : Option Position → List Event
position_events none = []
position_events (some p) = position_updated p ∷ []

abbrev pub kept_position : Option Position → Option Position → Option Position
kept_position old none = old
kept_position old (some p) = some p

-- The rows as they are committed.
pub committed : Order → Order → Released → Rows → Rows
unfolding cancel_event
committed o o' released rows = record {
  order = some o';
  account = some released.account;
  position = kept_position rows.position released.position;
  lots = released.lots;
  allocations = released.allocations;
  events =
      rows.events
      ++ cancel_event o o' ∷ account_updated released.account ∷ position_events released.position;
}

pub cancel_active : Request → Order → Account → Rows → Result (Order × Rows)
unfolding check_order release_resources cancelled_order check_volume committed
cancel_active r o a rows = do
  check_order r o
  released ← release_resources o a rows
  let o' = cancelled_order r o
  check_volume o'
  ok (o', committed o o' released rows)

-- An order that needs no cancellation is given back as it is.
pub is_settled : Request → Order → Bool
is_settled r o = (r.market_auto_cancel && is_filled o.status) || is_idempotent o.status

pub cancel_rows : Request → Rows → Result (Order × Rows)
unfolding not_found has_product_strategy is_settled cancel_active
cancel_rows r rows = do
  raise_if (not r.settlement_internal && not r.trading_is_open) daily_settlement_trading_closed
  o ← required (not_found r) rows.order
  a ← required (not_found r) rows.account
  raise_if (not (o.account_id == r.account_id)) order_account_mismatch
  raise_if (not (has_product_strategy o.instrument_type)) product_strategy_not_registered
  if is_settled r o then ok (o, rows) else cancel_active r o a rows

abbrev pub or_rollback : Rows → Result (Order × Rows) → Result Order × Rows
or_rollback rows (ok (o, rows')) = (ok o, rows')
or_rollback rows (err e) = (err e, rows)

-- The whole method, with the rollback.
pub cancel_order : Request → Rows → Result Order × Rows
unfolding cancel_rows
cancel_order r rows = or_rollback rows (cancel_rows r rows)

abbrev is_market : Option OrderType → Bool
is_market (some market) = true
is_market _ = false

-- What a market order left after its match is cancelled by the system: an administrator's request,
-- past the gate.
pub cancel_market_remainder : Bool → ℕ → Rows → Result Order × Rows
unfolding cancel_order
cancel_market_remainder trading_is_open now rows = elim rows.order [
  | none ↦ (err order_not_found, rows)
  | some o ↦
      if is_market o.order_type
      then cancel_order
          (record {
            account_id = o.account_id;
            settlement_internal = true;
            market_auto_cancel = true;
            conceal_resource_existence = false;
            trading_is_open = trading_is_open;
            now = now;
          })
          rows
      else (err order_not_cancellable, rows)
]
