-- ===== src/Settlement/Funds.antt =====
-- What a fill of a closing order makes of the account and of the order: the second part of
-- `CloseTradeSettlementHandler.apply`, app/services/close_trade_settlement_handler.py.
pub mod Laws
pub mod Orders
pub mod Tests
use sim_trade.Prelude.{
  ℕ, ◌*◌, ◌^◌, Bool, true, false, ◌&&◌, ◌||◌, Option, none, some, ◌==◌, if◌then◌else◌,
}
use sim_trade.Prelude.Int.{ℤ, pos, pos_part, ◌+ℤ◌, ◌-ℤ◌, ◌*ℤ◌, ltb_ℤ, eqb_ℤ}
use sim_trade.Enums.{PositionDirection, long, short, OrderStatus, filled, partially_filled}
use sim_trade.Money.{Decimal, Money, of_money, of_int, times, plus, quantize_ratio}
use sim_trade.Risk.State.{RiskState, preserve_for_local_update}
use sim_trade.Settlement.Rows.{OrderRow}
use sim_trade.Settlement.Valuation.{AccountValuation, AccountValuationResult, valuation_of}

-- The columns of an account that the settlement reads or writes; `valued` holds those of the valuation.
pub record AccountRow : Type 0 where
  pub valued : AccountValuation
  pub risk_state : RiskState
  pub available_cash : Money
  pub risk_available_cash : Money
  pub equity : Money
  pub net_option_market_value : Money
  pub used_commission : Money
  pub realized_pnl : Money
  pub daily_close_pnl : Money
  pub daily_position_pnl : Money
  pub daily_commission : Money
  pub daily_pnl : Money

-- The sums over the consumptions, and what an option releases besides.
pub record FillTotals : Type 0 where
  pub released_margin : Money
  pub released_realtime_margin : Money
  pub released_frozen_commission : Money
  pub released_frozen_cash : Money
  pub released_option_market_value : Money
  pub actual_commission : Money
  pub realized_pnl : Money
  pub daily_close_pnl : Money
  pub premium_cash_flow : Money

-- The columns that every fill writes.
pub settle_common : FillTotals → AccountRow → AccountRow
settle_common t a = record a {
  valued = record a.valued {
    used_margin = a.valued.used_margin -ℤ t.released_margin;
    frozen_commission = a.valued.frozen_commission -ℤ t.released_frozen_commission;
  };
  used_commission = a.used_commission +ℤ t.actual_commission;
  realized_pnl = a.realized_pnl +ℤ t.realized_pnl;
  daily_close_pnl = a.daily_close_pnl +ℤ t.daily_close_pnl;
  daily_commission = a.daily_commission +ℤ t.actual_commission;
}

-- An option pays its premium, and the account is valued anew.
pub option_value : PositionDirection → FillTotals → AccountValuation → AccountValuation
option_value long t v = record v {
  long_option_market_value = v.long_option_market_value -ℤ t.released_option_market_value;
}
option_value short t v = record v {
  short_option_market_value = v.short_option_market_value -ℤ t.released_option_market_value;
}

pub settle_option : Decimal → PositionDirection → FillTotals → AccountRow → AccountRow
unfolding option_value
settle_option ratio direction t a =
    let v = option_value direction t (record a.valued {
      frozen_cash = a.valued.frozen_cash -ℤ t.released_frozen_cash;
      option_used_margin = a.valued.option_used_margin -ℤ t.released_margin;
      option_realtime_required_margin =
          a.valued.option_realtime_required_margin -ℤ t.released_realtime_margin;
      cash_balance = a.valued.cash_balance +ℤ t.premium_cash_flow -ℤ t.actual_commission;
    }) in
    let r = valuation_of ratio v in
    record a {
      valued = v;
      available_cash = r.available_cash;
      risk_available_cash = r.risk_available_cash;
      equity = r.equity;
      net_option_market_value = r.net_option_market_value;
      risk_state =
          preserve_for_local_update a.risk_state false (ltb_ℤ r.risk_available_cash (pos 0));
    }

-- A future pays the profit of the day, and the free cash is updated by the difference.
pub settle_future : FillTotals → AccountRow → AccountRow
settle_future t a =
    let cash = a.valued.cash_balance +ℤ t.daily_close_pnl -ℤ t.actual_commission in
    record a {
      valued = record a.valued { cash_balance = cash };
      available_cash =
          a.available_cash +ℤ t.released_frozen_commission -ℤ t.actual_commission
          +ℤ t.released_margin +ℤ t.daily_close_pnl;
      equity = cash +ℤ a.valued.futures_unrealized_pnl;
    }

pub settle_account : Bool → Decimal → PositionDirection → FillTotals → AccountRow → AccountRow
unfolding settle_common settle_option settle_future
settle_account is_option ratio direction t a =
    let b = settle_common t a in
    let c = if is_option then settle_option ratio direction t b else settle_future t b in
    record c { daily_pnl = c.daily_position_pnl +ℤ c.daily_close_pnl -ℤ c.daily_commission }

-- The price of all that was traded, for a traded volume that is positive.
pub average_of : Money → ℤ → Decimal → ℤ → Money
average_of average_before traded_before fill_price fill_volume =
    let sum =
      plus (times (of_money average_before) (of_int traded_before))
        (times fill_price (of_int fill_volume)) in
    quantize_ratio (sum.coefficient *ℤ pos 1000000)
      (10 ^ sum.places * pos_part (traded_before +ℤ fill_volume))

unfoldable pub settle_order : Bool → FillTotals → Decimal → ℤ → OrderRow → OrderRow
unfolding average_of
settle_order is_option t fill_price fill_volume o =
    let left = o.remaining_volume -ℤ fill_volume in
    record o {
      traded_volume = o.traded_volume +ℤ fill_volume;
      remaining_volume = left;
      average_price = average_of o.average_price o.traded_volume fill_price fill_volume;
      status = if eqb_ℤ left (pos 0) then filled else partially_filled;
      frozen_commission = o.frozen_commission -ℤ t.released_frozen_commission;
      frozen_cash = if is_option then o.frozen_cash -ℤ t.released_frozen_cash else o.frozen_cash;
      frozen_position_volume = o.frozen_position_volume -ℤ fill_volume;
    }
