-- ===== src/Settlement/Open.antt =====
-- A fill of an opening order: the branch for futures of `TradeSettlementService.settle`,
-- app/services/trade_settlement_service.py, and `OptionTradeSettlementStrategy.apply_open`,
-- app/services/option_trade_settlement_strategy.py. The columns that describe how a margin was
-- calculated are only copied, and left out.
pub mod Records
pub mod Writes
pub mod Laws
pub mod Funds
pub mod Tests
use sim_trade.Prelude.{
  ℕ, Bool, true, false, not, ◌&&◌, ◌||◌, Option, none, some, List, [], ◌∷◌, ◌++◌, ◌==◌,
  if◌then◌else◌,
}
use sim_trade.Prelude.Int.{ℤ, pos, ◌+ℤ◌, ◌-ℤ◌, ltb_ℤ, eqb_ℤ}
use sim_trade.Errors.{
  Result, ok, ◌>>=◌, ◌>>◌, raise_if, open_resource_inconsistent, position_multiplier_inconsistent,
  option_risk_increase_not_allowed, option_order_multiplier_invalid,
  option_open_resource_inconsistent, option_position_rule_snapshot_inconsistent,
  option_position_multiplier_inconsistent,
}
use sim_trade.Enums.{
  OrderDirection, buy, sell, filled, partially_filled, PositionDirection, long, short,
}
use sim_trade.Money.{Decimal, Money, of_int, times, same_decimal, is_nonpositive, quantize_money}
use sim_trade.Fees.Snapshot.{calculate_from_snapshot}
use sim_trade.Positions.MarginRelease.{allocate_frozen_commission}
use sim_trade.Risk.State.{RiskState, normal}
use sim_trade.Settlement.Rows.{LotRow, OrderRow, PositionRow, open_detail}
use sim_trade.Settlement.Valuation.{AccountValuation, valuation_of}
use sim_trade.Settlement.Funds.{AccountRow, average_of}
use sim_trade.Settlement.Open.Records.{OpenRequest, OpenRows, OpenAmounts, OpenTrade, Opened}
use sim_trade.Settlement.Open.Writes.{
  is_buy, is_sell, opening_side, amounts_of, opened_order, opened_future_account, premium_flow,
  opened_option_account, position_for, opened_position, opened_lot, opened_rows,
}

abbrev pub fee_of : OpenRequest → OrderRow → Result Money
fee_of r o =
    calculate_from_snapshot r.fill_price r.fill_volume o.commission_type o.commission_parameter
      o.commission_contract_multiplier

abbrev pub keeps_multiplier : OpenRequest → OpenRows → Bool
keeps_multiplier r rows =
    same_decimal (position_for r rows).multiplier_snapshot rows.order.commission_contract_multiplier

unfoldable pub open_future : OpenRequest → OpenRows → Result Opened
unfolding amounts_of opened_future_account opened_rows
open_future r rows = do
  commission ← fee_of r rows.order
  raise_if
      (ltb_ℤ rows.account.valued.frozen_margin (amounts_of r rows.order commission).margin
        || ltb_ℤ rows.account.valued.frozen_commission
            (amounts_of r rows.order commission).released_commission)
      open_resource_inconsistent
  raise_if (not (keeps_multiplier r rows)) position_multiplier_inconsistent
  ok (
      opened_rows false r rows (amounts_of r rows.order commission)
        (opened_future_account (amounts_of r rows.order commission) rows.account) (pos 0))

abbrev pub has_normal_risk : RiskState → Bool
has_normal_risk normal = true
has_normal_risk _ = false

abbrev pub changes_rule : OrderRow → PositionRow → Bool
changes_rule o p = ltb_ℤ (pos 0) p.total_volume && not (p.margin_rule == o.margin_rule)

-- `apply_open`
pub open_option : OpenRequest → OpenRows → Result Opened
unfolding amounts_of opened_option_account opened_rows
open_option r rows = do
  raise_if (is_sell rows.order.direction && not (has_normal_risk rows.account.risk_state))
      option_risk_increase_not_allowed
  commission ← fee_of r rows.order
  raise_if (is_nonpositive rows.order.commission_contract_multiplier)
      option_order_multiplier_invalid
  raise_if
      (ltb_ℤ rows.account.valued.frozen_margin (amounts_of r rows.order commission).margin
        || (ltb_ℤ rows.account.valued.frozen_cash (amounts_of r rows.order commission).released_cash
            || ltb_ℤ rows.account.valued.frozen_commission
                (amounts_of r rows.order commission).released_commission))
      option_open_resource_inconsistent
  raise_if (changes_rule rows.order (position_for r rows))
      option_position_rule_snapshot_inconsistent
  raise_if (not (keeps_multiplier r rows)) option_position_multiplier_inconsistent
  ok (
      opened_rows true r rows (amounts_of r rows.order commission)
        (opened_option_account r.option_collateral_ratio rows.order.direction
          (amounts_of r rows.order commission) rows.account)
        (premium_flow rows.order.direction (amounts_of r rows.order commission).turnover))

-- The branch for the family of the product.
abbrev pub open_fill : Bool → OpenRequest → OpenRows → Result Opened
open_fill true = open_option
open_fill false = open_future

-- The account after the fill.
abbrev pub account_after : Bool → OpenRequest → OpenRows → OpenAmounts → AccountRow
account_after true r rows m =
    opened_option_account r.option_collateral_ratio rows.order.direction m rows.account
account_after false r rows m = opened_future_account m rows.account

abbrev pub premium_after : Bool → OpenRows → OpenAmounts → Money
premium_after true rows m = premium_flow rows.order.direction m.turnover
premium_after false rows m = pos 0
