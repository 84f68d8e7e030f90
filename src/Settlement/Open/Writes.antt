-- ===== src/Settlement/Open/Writes.antt =====
-- What an opening fill writes to the order, the account, the position and its lots:
-- app/services/trade_settlement_service.py and app/services/option_trade_settlement_strategy.py.
use sim_trade.Prelude.{ℕ, Bool, true, false, Option, none, some, [], ◌∷◌, ◌++◌, if◌then◌else◌}
use sim_trade.Prelude.Int.{pos, ◌+ℤ◌, ◌-ℤ◌, eqb_ℤ}
use sim_trade.Enums.{
  OrderDirection, buy, sell, filled, partially_filled, PositionDirection, long, short,
}
use sim_trade.Money.{Decimal, Money, of_int, times, quantize_money}
use sim_trade.Positions.MarginRelease.{allocate_frozen_commission}
use sim_trade.Settlement.Rows.{LotRow, OrderRow, PositionRow, open_detail}
use sim_trade.Settlement.Valuation.{AccountValuation, valuation_of}
use sim_trade.Settlement.Funds.{AccountRow, average_of}
use sim_trade.Settlement.Open.Records.{OpenRequest, OpenRows, OpenAmounts, Opened}

abbrev pub is_buy : Option OrderDirection → Bool
is_buy (some buy) = true
is_buy _ = false

abbrev pub is_sell : Option OrderDirection → Bool
is_sell (some sell) = true
is_sell _ = false

abbrev pub opening_side : Option OrderDirection → PositionDirection
opening_side (some buy) = long
opening_side _ = short

-- The remaining volume is positive here.
unfoldable pub amounts_of : OpenRequest → OrderRow → Money → OpenAmounts
amounts_of r o commission = record {
  margin = allocate_frozen_commission o.frozen_margin r.fill_volume o.remaining_volume;
  released_cash = allocate_frozen_commission o.frozen_cash r.fill_volume o.remaining_volume;
  released_commission =
      allocate_frozen_commission o.frozen_commission r.fill_volume o.remaining_volume;
  commission = commission;
  turnover =
      quantize_money
        (times (times r.fill_price (of_int r.fill_volume)) o.commission_contract_multiplier);
}

unfoldable pub opened_order : Bool → OpenRequest → OpenAmounts → OrderRow → OrderRow
opened_order is_option r m o =
    let left = o.remaining_volume -ℤ r.fill_volume in
    record o {
      traded_volume = o.traded_volume +ℤ r.fill_volume;
      remaining_volume = left;
      average_price = average_of o.average_price o.traded_volume r.fill_price r.fill_volume;
      status = if eqb_ℤ left (pos 0) then filled else partially_filled;
      margin_risk_is_normal = if eqb_ℤ left (pos 0) then true else o.margin_risk_is_normal;
      frozen_margin = o.frozen_margin -ℤ m.margin;
      frozen_cash = if is_option then o.frozen_cash -ℤ m.released_cash else o.frozen_cash;
      frozen_commission = o.frozen_commission -ℤ m.released_commission;
    }

-- The columns of the account that both branches write.
occupied : OpenAmounts → AccountRow → AccountRow
occupied m a = record a {
  valued = record a.valued {
    frozen_margin = a.valued.frozen_margin -ℤ m.margin;
    used_margin = a.valued.used_margin +ℤ m.margin;
    frozen_commission = a.valued.frozen_commission -ℤ m.released_commission;
  };
  used_commission = a.used_commission +ℤ m.commission;
  daily_commission = a.daily_commission +ℤ m.commission;
  daily_pnl = a.daily_position_pnl +ℤ a.daily_close_pnl -ℤ (a.daily_commission +ℤ m.commission);
}

unfoldable pub opened_future_account : OpenAmounts → AccountRow → AccountRow
unfolding occupied
opened_future_account m a =
    let b = occupied m a in
    let cash = b.valued.cash_balance -ℤ m.commission in
    record b {
      valued = record b.valued { cash_balance = cash };
      available_cash = b.available_cash +ℤ m.released_commission -ℤ m.commission;
      equity = cash +ℤ b.valued.futures_unrealized_pnl;
    }

abbrev pub premium_flow : Option OrderDirection → Money → Money
premium_flow d premium = if is_buy d then pos 0 -ℤ premium else premium

abbrev with_premium : Option OrderDirection → Money → AccountValuation → AccountValuation
with_premium d premium v =
    if is_buy d
    then record v { long_option_market_value = v.long_option_market_value +ℤ premium }
    else record v { short_option_market_value = v.short_option_market_value +ℤ premium }

unfoldable pub opened_option_account :
    Decimal → Option OrderDirection → OpenAmounts → AccountRow → AccountRow
unfolding occupied
opened_option_account ratio d m a =
    let b = occupied m a in
    let v = with_premium d m.turnover (record b.valued {
      frozen_cash = b.valued.frozen_cash -ℤ m.released_cash;
      option_used_margin = b.valued.option_used_margin +ℤ m.margin;
      option_realtime_required_margin = b.valued.option_realtime_required_margin +ℤ m.margin;
      cash_balance = b.valued.cash_balance +ℤ premium_flow d m.turnover -ℤ m.commission;
    }) in
    let q = valuation_of ratio v in
    record b {
      valued = v;
      available_cash = q.available_cash;
      risk_available_cash = q.risk_available_cash;
      equity = q.equity;
      net_option_market_value = q.net_option_market_value;
    }

-- `Position(...)` for the first fill on a side; it has no margin rule yet.
new_position : OpenRequest → OrderRow → PositionRow
new_position r o = record {
  position_id = r.position_id;
  direction = some (opening_side o.direction);
  multiplier_snapshot = o.commission_contract_multiplier;
  margin_rule = 0;
  trading_day = o.trading_day;
  initial_occupied_margin = pos 0;
  total_volume = pos 0;
  today_volume = pos 0;
  yesterday_volume = pos 0;
  frozen_volume = pos 0;
  settlement_locked_volume = pos 0;
  available_volume = pos 0;
  average_open_price = pos 0;
  position_cost = pos 0;
  used_margin = pos 0;
  realtime_required_margin = pos 0;
  option_market_value = pos 0;
  unrealized_pnl = pos 0;
  realized_pnl = pos 0;
  daily_close_pnl = pos 0;
}

unfoldable pub position_for : OpenRequest → OpenRows → PositionRow
unfolding new_position
position_for r rows = elim rows.position [ none ↦ new_position r rows.order | some p ↦ p ]

unfoldable pub opened_position :
    Bool → OpenRequest → OrderRow → OpenAmounts → PositionRow → PositionRow
opened_position is_option r o m p =
    let total = p.total_volume +ℤ r.fill_volume in
    record p {
      average_open_price =
          average_of p.average_open_price p.total_volume r.fill_price r.fill_volume;
      total_volume = total;
      today_volume = p.today_volume +ℤ r.fill_volume;
      available_volume = total -ℤ p.frozen_volume -ℤ p.settlement_locked_volume;
      position_cost = p.position_cost +ℤ m.turnover;
      used_margin = p.used_margin +ℤ m.margin;
      initial_occupied_margin = p.initial_occupied_margin +ℤ m.margin;
      option_market_value =
          if is_option then p.option_market_value +ℤ m.turnover else p.option_market_value;
      realtime_required_margin =
          if is_option then p.realtime_required_margin +ℤ m.margin else p.realtime_required_margin;
      margin_rule = if is_option then o.margin_rule else p.margin_rule;
      trading_day = if is_option then p.trading_day else o.trading_day;
    }

-- The lot of the fill.
unfoldable pub opened_lot : Bool → OpenRequest → OrderRow → OpenAmounts → ℕ → LotRow
opened_lot is_option r o m position_id = record {
  position_detail_id = r.position_detail_id;
  position_id = position_id;
  account_id = o.account_id;
  exchange_id = o.exchange_id;
  symbol = o.symbol;
  direction = some (opening_side o.direction);
  open_trading_day = o.trading_day;
  remaining_volume = r.fill_volume;
  frozen_volume = pos 0;
  remaining_margin = m.margin;
  realtime_required_margin = if is_option then m.margin else pos 0;
  open_price = r.fill_price;
  pnl_base_price = r.fill_price;
  original_volume = r.fill_volume;
  open_margin = m.margin;
  initial_occupied_margin = m.margin;
  open_commission = m.commission;
  multiplier_snapshot = o.commission_contract_multiplier;
  status = open_detail;
}

-- The rows that are left, for an account that the branch has written.
unfoldable pub opened_rows :
    Bool → OpenRequest → OpenRows → OpenAmounts → AccountRow → Money → Opened
unfolding opened_order opened_position opened_lot position_for
opened_rows is_option r rows m account premium = record {
  order = opened_order is_option r m rows.order;
  account = account;
  position = opened_position is_option r rows.order m (position_for r rows);
  lots = rows.lots ++ opened_lot is_option r rows.order m (position_for r rows).position_id ∷ [];
  trade = record {
    trade_price = r.fill_price;
    trade_volume = r.fill_volume;
    turnover = m.turnover;
    margin = m.margin;
    premium_cash_flow = premium;
    commission = m.commission;
  };
}
