-- ===== src/Settlement/Trade/Tests.antt =====
-- A match of 3 with an opening order of 7 that is settled, and that is delivered again.
use sim_trade.Prelude.{◌≡◌, refl, false, true, none, some, []}
use sim_trade.Prelude.Int.{pos, ◌+ℤ◌, ◌-ℤ◌, ◌*ℤ◌, int_laws}
use sim_trade.Errors.{Result, ok, ok-Ensures}
use sim_trade.Enums.{futures}
use sim_trade.Money.{of_int, proportion, quantize_money, quantize_ratio, round_half_up}
use sim_trade.Fees.Snapshot.{calculate_from_snapshot}
use sim_trade.Positions.MarginRelease.{allocate_frozen_commission}
use sim_trade.Settlement.Rows.{OrderRow}
use sim_trade.Settlement.Funds.{AccountRow}
use sim_trade.Settlement.Open.{open_future}
use sim_trade.Settlement.Open.Writes.{amounts_of, position_for}
use sim_trade.Settlement.Open.Tests.{opening_order, opening_account}
use sim_trade.Settlement.Trade.Records.{
  SettlementCommand, SettlementResult, settled, idempotent, TradeRows, MarginCheck, stored,
  integrity_error, Surroundings,
}
use sim_trade.Settlement.Trade.Laws.{KeepsVolumes, IsRecorded}
use sim_trade.Settlement.Trade.Atomic.{settle-IsRecorded}
use sim_trade.Settlement.Trade.Again.{settle_again}
use sim_trade.Settlement.Funds.Orders.{IsReduced}
use sim_trade.Settlement.Trade.{settle}

-- The check of the margin does not concern the order of a future.
abbrev unchecked : OrderRow → AccountRow → Result MarginCheck
unchecked o a = ok record { is_refused = false; order = o; account = a }

abbrev surroundings : Surroundings
surroundings = record {
  latest_batch = some (record { is_completed = true; trading_day = 6 });
  ensure_locked = unchecked;
  store = stored;
  raced = none;
}

-- The database refuses the writes of a second worker.
abbrev conflicting : Surroundings
conflicting = record surroundings { store = integrity_error }

abbrev command : SettlementCommand
command = record {
  match_result = record {
    matched = true;
    fill_price = some (of_int (pos 104));
    fill_volume = pos 3;
    reason = none;
    engine_name = "VN";
    engine_version = "1.0";
  };
  option_collateral_ratio = of_int (pos 0);
  trade_id = 501;
  position_id = 21;
  position_detail_id = 1;
}

abbrev rows : TradeRows
rows = record {
  order = some opening_order;
  traded = none;
  account = some opening_account;
  instrument = some (some futures);
  position = none;
  lots = [];
  allocations = [];
  events = [];
}

abbrev result : SettlementResult
result = record { trade_id = some 501; action = settled }

abbrev written : TradeRows
written = (settle surroundings command rows).1

settle-result : settle surroundings command rows ≡ (ok result, written)
unfolding settle open_future amounts_of position_for allocate_frozen_commission proportion
    calculate_from_snapshot quantize_money quantize_ratio round_half_up ◌+ℤ◌ ◌-ℤ◌ ◌*ℤ◌
settle-result = refl

unchecked-KeepsVolumes : KeepsVolumes unchecked
unchecked-KeepsVolumes o a =
    ok-Ensures (λ c. IsReduced (pos 0) o c.order)
      (record { is_refused = false; order = o; account = a })
      record { day = refl; traded = omega int_laws; remaining = omega int_laws; cancelled = refl }

settle-IsRecorded_example :
    (result.trade_id ≡ some command.trade_id)
    × ((o : OrderRow) × (some opening_order ≡ some o) × IsRecorded command o written)
settle-IsRecorded_example =
    settle-IsRecorded surroundings command rows written result unchecked-KeepsVolumes refl
      settle-result

settle_again_example :
    settle conflicting command written
    ≡ (ok record { trade_id = some 501; action = idempotent }, written)
settle_again_example =
    settle_again surroundings conflicting command rows written result unchecked-KeepsVolumes refl
      refl settle-result
