-- ===== src/Orders/Cancellation/Tests.antt =====
-- A closing order of which 1 of 3 lots was traded, cancelled.
use sim_trade.Prelude.{◌≡◌, refl, true, false, none, some, List, [], ◌∷◌, arith, All}
use sim_trade.Prelude.Int.{pos, ◌+ℤ◌, ◌-ℤ◌}
use sim_trade.Errors.{ok, err, order_account_mismatch}
use sim_trade.Enums
use sim_trade.Enums.{
  futures, sell, close_flag, close_yesterday, limit, partially_filled, partially_cancelled, long,
}
use sim_trade.Risk.State.{normal}
use sim_trade.Orders.Account.{Account}
use sim_trade.Orders.Freeze.{
  release, release_open_order_frozen_resources, release_close_order_commission,
}
use sim_trade.Orders.Freeze.Outcome.{total_funds}
use sim_trade.Orders.Allocations.{
  Lot, PositionFreezeAllocation, AllocationOwner, active, released, allocation_volume,
  allocation_commission, are_consistent, detail_of, release_all,
}
use sim_trade.Orders.Allocations.Laws.{sum_frozen, HasVolumeLeft, IsReleased, release_all_conserves}
use sim_trade.Orders.Rows.{
  Order, Position, Rows, Request, user_request, order_partially_cancelled, account_updated,
  position_updated,
}
use sim_trade.Orders.Cancellation.{cancel_order, is_open}
use sim_trade.Orders.Cancellation.Laws.{
  IsCancelled, cancel_order_idempotent, cancel_order-IsCancelled,
}
use sim_trade.Orders.Cancellation.Resources.{cancel_order_funds}
use sim_trade.Orders.Cancellation.Lots.{IsGivenUp, cancel_order_lots}

abbrev close_three : Order
close_three = record {
  order_id = 7;
  account_id = 1;
  exchange_id = 2;
  symbol = 3;
  trading_day = 20;
  instrument_type = some futures;
  direction = some sell;
  offset_flag = some close_flag;
  order_type = some limit;
  status = some partially_filled;
  total_volume = pos 3;
  traded_volume = pos 1;
  remaining_volume = pos 2;
  cancelled_volume = pos 0;
  frozen_margin = pos 0;
  frozen_cash = pos 0;
  frozen_commission = pos 4;
  frozen_position_volume = pos 2;
  margin_risk_is_normal = true;
  cancelled_at = none;
  cancel_reason_code = none;
}

abbrev holder : Account
holder = record {
  status = some Enums.normal;
  risk_state = normal;
  available_cash = pos 100;
  risk_available_cash = pos 90;
  frozen_cash = pos 0;
  frozen_margin = pos 0;
  frozen_commission = pos 6;
  option_used_margin = pos 0;
  option_realtime_required_margin = pos 0;
  long_option_market_value = pos 0;
  short_option_market_value = pos 0;
}

abbrev long_five : Position
long_five = record {
  position_id = 4;
  direction = some long;
  total_volume = pos 5;
  frozen_volume = pos 3;
  settlement_locked_volume = pos 0;
  available_volume = pos 2;
}

abbrev lots : List Lot
lots =
    record {
      position_detail_id = 11;
      direction = some long;
      open_trading_day = 19;
      remaining_volume = pos 5;
      frozen_volume = pos 2;
    }
    ∷ []

abbrev allocations : List PositionFreezeAllocation
allocations =
    record {
      order_id = 7;
      position_id = 4;
      position_detail_id = 11;
      account_id = 1;
      exchange_id = 2;
      symbol = 3;
      resolved_offset_flag = some close_yesterday;
      original_frozen_volume = pos 3;
      remaining_frozen_volume = pos 2;
      consumed_volume = pos 1;
      released_volume = pos 0;
      original_frozen_commission = pos 6;
      remaining_frozen_commission = pos 4;
      consumed_commission = pos 2;
      released_commission = pos 0;
      status = active;
    }
    ∷ []

abbrev rows : Rows
rows = record {
  order = some close_three;
  account = some holder;
  position = some long_five;
  lots = lots;
  allocations = allocations;
  events = [];
}

abbrev by_holder : Request
by_holder = record {
  account_id = 1;
  settlement_internal = false;
  market_auto_cancel = false;
  conceal_resource_existence = true;
  trading_is_open = true;
  now = 1000;
}

mismatched :
    cancel_order (record by_holder { account_id = 2 }) rows ≡ (err order_account_mismatch, rows)
unfolding cancel_order
mismatched = refl

abbrev after : Order
after = record close_three {
  status = some partially_cancelled;
  remaining_volume = pos 0;
  cancelled_volume = pos 2;
  frozen_commission = pos 0;
  frozen_position_volume = pos 0;
  cancelled_at = some 1000;
  cancel_reason_code = some user_request;
}

abbrev holder_after : Account
holder_after = record holder {
  available_cash = pos 104;
  risk_available_cash = pos 94;
  frozen_commission = pos 2;
}

abbrev position_after : Position
position_after = record long_five { frozen_volume = pos 1; available_volume = pos 4 }

abbrev lots_after : List Lot
lots_after =
    record {
      position_detail_id = 11;
      direction = some long;
      open_trading_day = 19;
      remaining_volume = pos 5;
      frozen_volume = pos 0;
    }
    ∷ []

abbrev allocations_after : List PositionFreezeAllocation
allocations_after =
    record {
      order_id = 7;
      position_id = 4;
      position_detail_id = 11;
      account_id = 1;
      exchange_id = 2;
      symbol = 3;
      resolved_offset_flag = some close_yesterday;
      original_frozen_volume = pos 3;
      remaining_frozen_volume = pos 0;
      consumed_volume = pos 1;
      released_volume = pos 2;
      original_frozen_commission = pos 6;
      remaining_frozen_commission = pos 0;
      consumed_commission = pos 2;
      released_commission = pos 4;
      status = released;
    }
    ∷ []

abbrev rows_after : Rows
rows_after = record {
  order = some after;
  account = some holder_after;
  position = some position_after;
  lots = lots_after;
  allocations = allocations_after;
  events =
      order_partially_cancelled after (pos 0) (pos 0) (pos 4)
      ∷ account_updated holder_after
      ∷ position_updated position_after
      ∷ [];
}

three_cancelled : cancel_order by_holder rows ≡ (ok after, rows_after)
unfolding cancel_order is_open allocation_volume allocation_commission are_consistent detail_of
    release_all release_open_order_frozen_resources release_close_order_commission ◌+ℤ◌ ◌-ℤ◌
three_cancelled = refl

is_closing : is_open (some close_flag) ≡ false
unfolding is_open
is_closing = refl

volume_left : All HasVolumeLeft allocations
unfolding HasVolumeLeft
volume_left = (omega arith, tt)

abbrev owner : AllocationOwner
owner = record {
  order_id = 7;
  position_id = 4;
  account_id = 1;
  exchange_id = 2;
  symbol = 3;
  position_direction = long;
  trading_day = 20;
}

allocations_consistent : are_consistent owner lots allocations ≡ true
unfolding are_consistent detail_of ◌+ℤ◌
allocations_consistent = refl

release_all_conserves_example :
    (sum_frozen (release_all allocations lots).1 +ℤ allocation_volume allocations ≡ sum_frozen lots)
    × All IsReleased (release_all allocations lots).0
release_all_conserves_example =
    release_all_conserves owner allocations lots allocations_consistent volume_left

cancel_order_idempotent_example : cancel_order by_holder rows_after ≡ (ok after, rows_after)
cancel_order_idempotent_example =
    cancel_order_idempotent by_holder rows rows_after after three_cancelled

cancel_order-IsCancelled_example : (some after ≡ some after) × IsCancelled close_three after
cancel_order-IsCancelled_example =
    cancel_order-IsCancelled by_holder rows rows_after close_three after holder refl refl refl
      three_cancelled

cancel_order_funds_example :
    (b : Account) × (some holder_after ≡ some b)
    × (b ≡ release (pos 0) (pos 4) (pos 0) holder)
    × (total_funds b ≡ total_funds holder)
cancel_order_funds_example =
    cancel_order_funds by_holder rows rows_after close_three after holder refl refl refl
      three_cancelled

cancel_order_lots_example : IsGivenUp close_three long_five lots rows_after
cancel_order_lots_example =
    cancel_order_lots by_holder rows rows_after close_three after holder long_five refl refl refl
      refl is_closing volume_left three_cancelled
