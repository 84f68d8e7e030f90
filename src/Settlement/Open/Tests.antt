-- ===== src/Settlement/Open/Tests.antt =====
-- A fill of 3 of the 7 units of an order that opens a long position, and the theorems at it.
use sim_trade.Prelude.{◌≡◌, refl, false, none, some, [], arith}
use sim_trade.Prelude.Int.{pos, ◌+ℤ◌, ◌-ℤ◌, ◌*ℤ◌}
use sim_trade.Errors.{ok}
use sim_trade.Enums.{buy, open_flag}
use sim_trade.Money.{of_int, plus, proportion, quantize_money, quantize_ratio, round_half_up}
use sim_trade.Fees.Snapshot.{calculate_from_snapshot}
use sim_trade.Positions.MarginRelease.{allocate_frozen_commission}
use sim_trade.Settlement.Rows.{OrderRow}
use sim_trade.Settlement.Valuation.{valuation_of}
use sim_trade.Settlement.Funds.{AccountRow}
use sim_trade.Settlement.Funds.Tests.{account, order, no_collateral}
use sim_trade.Settlement.Close.Lots.{IsPositioned}
use sim_trade.Settlement.Open.Records.{OpenRequest, OpenRows, Opened}
use sim_trade.Settlement.Open.Writes.{amounts_of, opened_rows, position_for}
use sim_trade.Settlement.Open.Laws.{IsFilled, open_fill-IsFilled}
use sim_trade.Settlement.Open.Funds.{IsFrozen, IsMoved, open_fill-IsMoved, open_fill_valued}
use sim_trade.Settlement.Open.{open_future, open_fill, account_after}

abbrev pub opening_order : OrderRow
opening_order = record order {
  direction = some buy;
  offset_flag = some open_flag;
  frozen_margin = pos 70000000;
  frozen_position_volume = pos 0;
}

abbrev pub opening_account : AccountRow
opening_account = record account {
  valued = record account.valued { frozen_margin = pos 70000000 };
  available_cash = pos 351000000;
}

abbrev pub request : OpenRequest
request = record {
  fill_volume = pos 3;
  fill_price = of_int (pos 104);
  option_collateral_ratio = of_int (pos 0);
  position_id = 21;
  position_detail_id = 1;
}

abbrev pub rows : OpenRows
rows = record { order = opening_order; account = opening_account; position = none; lots = [] }

-- The fee is 3 for each unit.
abbrev pub opened : Opened
opened =
    opened_rows false request rows (amounts_of request opening_order (pos 9000000))
      (account_after false request rows (amounts_of request opening_order (pos 9000000))) (pos 0)

pub opened_rows-result : open_fill false request rows ≡ ok opened
unfolding open_future opened_rows amounts_of position_for allocate_frozen_commission proportion
    calculate_from_snapshot quantize_money quantize_ratio round_half_up ◌+ℤ◌ ◌-ℤ◌ ◌*ℤ◌
opened_rows-result = refl

no_lots : IsPositioned 7 [] (position_for request rows)
unfolding position_for
no_lots = record {
  total_volume = refl;
  frozen_volume = refl;
  held = tt;
  distinct = λ key. omega arith;
}

open_fill-IsFilled_example : IsFilled request rows opened
open_fill-IsFilled_example =
    open_fill-IsFilled false request rows 7 opened (omega arith) refl no_lots opened_rows-result

open_fill-IsMoved_example :
    IsFrozen opened.order
    × IsMoved opening_order opening_account opened.order opened.account
    × (opened.position.used_margin -ℤ opened.account.valued.used_margin
        ≡ (position_for request rows).used_margin -ℤ pos 18000000)
    × (pos 3 ≡ pos 7
        → (opened.order.frozen_margin ≡ pos 0) × (opened.order.frozen_commission ≡ pos 0))
open_fill-IsMoved_example =
    open_fill-IsMoved false request rows opened
      record { margin = omega arith; cash = omega arith; commission = omega arith } (omega arith)
      opened_rows-result

opening_account-valued :
    opening_account.available_cash
    ≡ (valuation_of (of_int (pos 0)) opening_account.valued).available_cash
unfolding valuation_of ◌+ℤ◌ ◌-ℤ◌ ◌*ℤ◌ plus quantize_money quantize_ratio round_half_up
opening_account-valued = refl

open_fill_valued_example :
    opened.account.available_cash
    ≡ (valuation_of (of_int (pos 0)) opened.account.valued).available_cash
open_fill_valued_example =
    open_fill_valued false request rows opened no_collateral opening_account-valued
      opened_rows-result
