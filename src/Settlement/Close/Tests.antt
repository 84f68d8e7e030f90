-- ===== src/Settlement/Close/Tests.antt =====
-- A fill of 5 of the 7 lots of a closing order, and the theorems at it.
use sim_trade.Prelude.{◌≡◌, refl, false, some, arith}
use sim_trade.Prelude.Int.{pos, ◌+ℤ◌, ◌-ℤ◌, ◌*ℤ◌}
use sim_trade.Errors.{ok}
use sim_trade.Enums.{long}
use sim_trade.Money.{of_int, proportion, quantize_ratio, round_half_up, quantize_money}
use sim_trade.Fees.Buckets.{
  calculate_bucket_allocations, add_index, same_key, volume_at, total_volume_of, bucket_shares,
  write_shares,
}
use sim_trade.Fees.Snapshot.{calculate_from_snapshot}
use sim_trade.Settlement.Rows.{PositionRow}
use sim_trade.Settlement.Consumption.{lot_of}
use sim_trade.Settlement.Validation.{validate_before_mutation}
use sim_trade.Settlement.Validation.Laws.{IsSettleable, validate-IsSettleable}
use sim_trade.Settlement.Consumption.Tests.{lots, allocations, consumptions, fill_of_5}
use sim_trade.Settlement.Funds.Tests.{account, order, totals}
use sim_trade.Settlement.Close.Records.{CloseRequest, CloseRows, Prepared, Closed}
use sim_trade.Settlement.Close.{prepare_close, apply_close}
use sim_trade.Settlement.Close.Lots.{IsPositioned}
use sim_trade.Settlement.Close.Laws.{IsSettled, apply_close-IsSettled}
use sim_trade.Settlement.Consumption.Keys.{AreUnique}

abbrev position : PositionRow
position = record {
  position_id = 21;
  direction = some long;
  multiplier_snapshot = of_int (pos 10);
  margin_rule = 0;
  trading_day = 7;
  initial_occupied_margin = pos 18000000;
  total_volume = pos 7;
  today_volume = pos 0;
  yesterday_volume = pos 7;
  frozen_volume = pos 7;
  settlement_locked_volume = pos 0;
  available_volume = pos 0;
  average_open_price = pos 100000000;
  position_cost = pos 7000000000;
  used_margin = pos 18000000;
  realtime_required_margin = pos 0;
  option_market_value = pos 0;
  unrealized_pnl = pos 0;
  realized_pnl = pos 0;
  daily_close_pnl = pos 0;
}

abbrev request : CloseRequest
request = record {
  fill_volume = pos 5;
  fill_price = of_int (pos 105);
  option_collateral_ratio = of_int (pos 0);
}

abbrev rows : CloseRows
rows = record {
  order = order;
  account = account;
  position = some position;
  lots = lots;
  allocations = allocations;
}

abbrev prepared : Prepared
prepared = record {
  is_option = false;
  side = long;
  position = position;
  consumptions = consumptions;
  totals = totals;
}

validated : validate_before_mutation order position lots allocations (pos 5) long ≡ ok tt
unfolding validate_before_mutation lot_of ◌+ℤ◌ ◌-ℤ◌ ◌*ℤ◌ calculate_bucket_allocations add_index
    same_key volume_at total_volume_of bucket_shares write_shares calculate_from_snapshot proportion
    quantize_ratio round_half_up quantize_money
validated = refl

validate-IsSettleable_example : IsSettleable order position lots allocations (pos 5) long
validate-IsSettleable_example =
    validate-IsSettleable order position lots allocations (pos 5) long validated

prepare_close-rows : prepare_close request rows ≡ ok prepared
unfolding prepare_close ◌+ℤ◌
prepare_close-rows = rw (validated, fill_of_5) refl

allocations-AreUnique : AreUnique allocations
allocations-AreUnique = record { by_id = λ key. ground arith; by_lot = λ key. ground arith }

lots-IsPositioned : IsPositioned 7 lots position
unfolding ◌+ℤ◌
lots-IsPositioned = record {
  total_volume = refl;
  frozen_volume = refl;
  held = ((omega arith, omega arith), ((omega arith, omega arith), tt));
  distinct = λ key. ground arith;
}

apply_close-IsSettled_example :
    (c : Closed) × (apply_close request rows ≡ ok c) × IsSettled request rows position c
apply_close-IsSettled_example =
    apply_close-IsSettled request rows prepared prepare_close-rows allocations-AreUnique
      lots-IsPositioned
