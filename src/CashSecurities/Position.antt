-- ===== src/CashSecurities/Position.antt =====
-- `CashSecurityPositionService`, app/services/cash_security_position_service.py: what a purchase and a
-- sale make of a position. A call that raises is rolled back with the caller's transaction, so only
-- the position after a call that returns is modelled. The position has all its columns.
pub mod Laws
pub mod Purchases
pub mod Trades
mod Tests
use sim_trade.Prelude.{
  ℕ, zero, suc, Bool, true, false, ◌&&◌, ◌||◌, Option, none, some, ◌==◌, if◌then◌else◌,
}
use sim_trade.Prelude.Int.{ℤ, pos, ◌+ℤ◌, ◌-ℤ◌, ◌*ℤ◌, ltb_ℤ, eqb_ℤ, min_ℤ}
use sim_trade.Errors.{
  ErrorCode, Result, ok, err, ◌>>=◌, ◌>>◌, raise_if, cash_security_position_instrument_invalid,
  cash_security_sell_freeze_inconsistent, stock_t_plus_one_violation, etf_t_plus_one_violation,
  division_by_zero,
}
use sim_trade.Enums.{InstrumentType, stock, convertible_bond, etf}
use sim_trade.Money.{Money, divide}

pub record CashPosition : Type 0 where
  pub total_volume : ℤ
  pub today_volume : ℤ
  pub yesterday_volume : ℤ
  pub frozen_volume : ℤ
  pub settlement_locked_volume : ℤ
  pub available_volume : ℤ
  pub position_cost : Money
  pub today_pnl_base_cost : Money
  pub yesterday_pnl_base_cost : Money
  pub daily_pnl_base_cost : Money
  pub daily_pnl_base_established : Bool
  pub average_open_price : Money

-- T+1 or T+0.
pub settlement_days : Option InstrumentType → Option ℕ → Result ℕ
settlement_days (some stock) market_tplus = ok 1
settlement_days (some convertible_bond) market_tplus = ok 0
settlement_days (some etf) (some days) =
    if (days == 0) || (days == 1) then ok days else err cash_security_position_instrument_invalid
settlement_days _ _ = err cash_security_position_instrument_invalid

-- `quantize_money(amount * part / whole)`
pub ratio : Money → ℤ → ℤ → Result Money
ratio amount part whole =
    if eqb_ℤ whole (pos 0) then err division_by_zero else ok (divide (amount *ℤ part) whole)

-- The volumes after a purchase.
pub bought : ℕ → ℤ → CashPosition → CashPosition
bought days volume p =
    if days == 1
    then record p {
      total_volume = p.total_volume +ℤ volume;
      today_volume = p.today_volume +ℤ volume;
      settlement_locked_volume = p.settlement_locked_volume +ℤ volume;
    }
    else record p {
      total_volume = p.total_volume +ℤ volume;
      today_volume = p.today_volume +ℤ volume;
      available_volume = p.available_volume +ℤ volume;
    }

-- The cost bases after a purchase: where the buckets are not established, only the new part is known.
pub bought_bases : Money → CashPosition → CashPosition
bought_bases turnover p =
    if p.daily_pnl_base_established
    then record p {
      today_pnl_base_cost = p.today_pnl_base_cost +ℤ turnover;
      daily_pnl_base_cost = p.yesterday_pnl_base_cost +ℤ (p.today_pnl_base_cost +ℤ turnover);
    }
    else record p {
      today_pnl_base_cost = p.today_pnl_base_cost +ℤ turnover;
      daily_pnl_base_cost = p.daily_pnl_base_cost +ℤ turnover;
    }

pub apply_buy : CashPosition → Option InstrumentType → ℤ → Money → Option ℕ → Result CashPosition
unfolding settlement_days bought bought_bases ratio
apply_buy p instrument_type volume turnover market_tplus = do
  days ← settlement_days instrument_type market_tplus
  let q = bought_bases turnover (bought days volume p)
  let cost = p.position_cost +ℤ turnover
  average ← ratio cost (pos 1) q.total_volume
  ok (record q { position_cost = cost; average_open_price = average })

abbrev is_stock : Option InstrumentType → Bool
is_stock (some stock) = true
is_stock _ = false

-- What is sold of the volume of yesterday.
pub from_yesterday : ℕ → ℤ → CashPosition → ℤ
from_yesterday days volume p = if days == 1 then volume else min_ℤ p.yesterday_volume volume

-- The part of a basis that goes with the volume sold.
pub reduction : Money → ℤ → ℤ → Result Money
unfolding ratio
reduction base sold before =
    if eqb_ℤ sold before
    then ok base
    else if eqb_ℤ sold (pos 0)
    then ok (pos 0)
    else ratio base sold before

-- The bases after a sale of so much of each day's volume, where the two buckets are known.
pub sold_known_bases : ℤ → ℤ → CashPosition → Result CashPosition
unfolding reduction
sold_known_bases yesterday_sold today_sold p = do
  y ← reduction p.yesterday_pnl_base_cost yesterday_sold p.yesterday_volume
  t ← reduction p.today_pnl_base_cost today_sold p.today_volume
  ok (record p {
    yesterday_pnl_base_cost = p.yesterday_pnl_base_cost -ℤ y;
    today_pnl_base_cost = p.today_pnl_base_cost -ℤ t;
    daily_pnl_base_cost = p.yesterday_pnl_base_cost -ℤ y +ℤ (p.today_pnl_base_cost -ℤ t);
  })

-- The same where only the bucket of today is known: the older part stays as it is.
pub sold_legacy_bases : ℤ → CashPosition → Result CashPosition
unfolding reduction
sold_legacy_bases today_sold p = do
  t ← reduction p.today_pnl_base_cost today_sold p.today_volume
  ok (record p {
    today_pnl_base_cost = p.today_pnl_base_cost -ℤ t;
    daily_pnl_base_cost =
        p.daily_pnl_base_cost -ℤ p.today_pnl_base_cost +ℤ (p.today_pnl_base_cost -ℤ t);
  })

pub sold_bases : ℤ → ℤ → CashPosition → Result CashPosition
unfolding sold_known_bases sold_legacy_bases
sold_bases yesterday_sold today_sold p =
    if p.daily_pnl_base_established
    then sold_known_bases yesterday_sold today_sold p
    else sold_legacy_bases today_sold p

-- The volumes after a sale, of which so much is of yesterday.
pub sold_volumes : ℤ → ℤ → CashPosition → CashPosition
sold_volumes volume yesterday_sold p =
    let total = p.total_volume -ℤ volume in
    let frozen = p.frozen_volume -ℤ volume in
    record p {
      total_volume = total;
      yesterday_volume = p.yesterday_volume -ℤ yesterday_sold;
      today_volume = p.today_volume -ℤ (volume -ℤ yesterday_sold);
      frozen_volume = frozen;
      available_volume = total -ℤ frozen -ℤ p.settlement_locked_volume;
    }

pub sold_average : Money → ℤ → Result Money
unfolding ratio
sold_average cost total = if eqb_ℤ total (pos 0) then ok (pos 0) else ratio cost (pos 1) total

-- `cost`: the whole cost, or its part by volume.
pub sale_cost : CashPosition → ℤ → Result Money
unfolding ratio
sale_cost p volume =
    if eqb_ℤ volume p.total_volume
    then ok p.position_cost
    else ratio p.position_cost volume p.total_volume

-- The position after a sale, and the cost of what was sold.
pub apply_sell : CashPosition → Option InstrumentType → ℤ → Option ℕ → Result (CashPosition × Money)
unfolding settlement_days from_yesterday sale_cost sold_bases sold_volumes sold_average
apply_sell p instrument_type volume market_tplus = do
  raise_if (ltb_ℤ p.frozen_volume volume || ltb_ℤ p.total_volume volume)
      cash_security_sell_freeze_inconsistent
  days ← settlement_days instrument_type market_tplus
  raise_if ((days == 1) && ltb_ℤ p.yesterday_volume volume)
      (if is_stock instrument_type then stock_t_plus_one_violation else etf_t_plus_one_violation)
  let y = from_yesterday days volume p
  cost ← sale_cost p volume
  q ← sold_bases y (volume -ℤ y) p
  average ← sold_average (p.position_cost -ℤ cost) (p.total_volume -ℤ volume)
  ok (
    record (sold_volumes volume y q) {
      position_cost = p.position_cost -ℤ cost;
      average_open_price = average;
    },
    cost,
  )
