-- ===== src/Settlement/Close/Position.antt =====
-- The update of the position by a closing fill: the part of `CloseTradeSettlementHandler.apply`,
-- app/services/close_trade_settlement_handler.py, that counts the open lots anew.
pub mod Volumes
use sim_trade.Prelude.{ℕ, ◌*◌, ◌^◌, Bool, List, [], ◌∷◌, ◌==◌, ltb, if◌then◌else◌}
use sim_trade.Prelude.Int.{ℤ, pos, ◌+ℤ◌, ◌-ℤ◌, ◌*ℤ◌, ltb_ℤ, eqb_ℤ}
use sim_trade.Money.{Decimal, Money, of_int, times, plus, divide, quantize_money}
use sim_trade.Settlement.Rows.{LotRow, PositionRow}
use sim_trade.Settlement.Tables.{total}
use sim_trade.Settlement.Funds.{FillTotals}

pub sum_decimal : {R : Type 0} → (R → Decimal) → List R → Decimal
sum_decimal column [] = of_int (pos 0)
sum_decimal column (r ∷ rest) = plus (column r) (sum_decimal column rest)

-- `open_details`: the lots that still hold something, as they stand after the writes.
pub open_details : List LotRow → List LotRow
open_details [] = []
open_details (l ∷ rest) =
    if ltb_ℤ (pos 0) l.remaining_volume then l ∷ open_details rest else open_details rest

abbrev pub today_part : ℕ → LotRow → ℤ
today_part day l = if l.open_trading_day == day then l.remaining_volume else pos 0

abbrev pub yesterday_part : ℕ → LotRow → ℤ
yesterday_part day l = if ltb l.open_trading_day day then l.remaining_volume else pos 0

-- `quantize_money(amount / Decimal(volume))`, for a volume that is not zero
abbrev pub divided_by_volume : Decimal → ℤ → Money
divided_by_volume amount volume =
    divide (amount.coefficient *ℤ pos 1000000) (pos (10 ^ amount.places) *ℤ volume)

-- The columns that a position with no volume left does not keep.
closed_position : PositionRow → PositionRow
closed_position p = record p {
  average_open_price = pos 0;
  position_cost = pos 0;
  used_margin = pos 0;
  realtime_required_margin = pos 0;
  option_market_value = pos 0;
  unrealized_pnl = pos 0;
}

valued_position : List LotRow → PositionRow → PositionRow
valued_position lots p = record p {
  position_cost = quantize_money (
      sum_decimal
        (λ l. times (times l.open_price (of_int l.remaining_volume)) l.multiplier_snapshot) lots);
  average_open_price =
      divided_by_volume (sum_decimal (λ l. times l.open_price (of_int l.remaining_volume)) lots)
        p.total_volume;
}

released_position : Bool → FillTotals → ℤ → PositionRow → PositionRow
released_position is_option t n p = record p {
  total_volume = p.total_volume -ℤ n;
  frozen_volume = p.frozen_volume -ℤ n;
  used_margin = p.used_margin -ℤ t.released_margin;
  realtime_required_margin =
      if is_option
      then p.realtime_required_margin -ℤ t.released_realtime_margin
      else p.realtime_required_margin;
  option_market_value =
      if is_option
      then p.option_market_value -ℤ t.released_option_market_value
      else p.option_market_value;
  realized_pnl = p.realized_pnl +ℤ t.realized_pnl;
  daily_close_pnl = p.daily_close_pnl +ℤ t.daily_close_pnl;
}

counted_position : ℕ → List LotRow → PositionRow → PositionRow
counted_position day lots p = record p {
  today_volume = total (today_part day) lots;
  yesterday_volume = total (yesterday_part day) lots;
  available_volume = p.total_volume -ℤ p.frozen_volume -ℤ p.settlement_locked_volume;
}

pub settle_position : Bool → FillTotals → ℕ → ℤ → List LotRow → PositionRow → PositionRow
unfolding closed_position valued_position released_position counted_position open_details
settle_position is_option t day n lots p =
    let lots' = open_details lots in
    let p' = counted_position day lots' (released_position is_option t n p) in
    if eqb_ℤ p'.total_volume (pos 0) then closed_position p' else valued_position lots' p'
