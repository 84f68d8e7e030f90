-- ===== src/Settlement/Funds/Laws.antt =====
-- The update of an account agrees with its valuation.
use sim_trade.Prelude.{◌≡◌, ◌∙◌, refl, sym, false}
use sim_trade.Prelude.Int.{ℤ, pos, ◌+ℤ◌, ◌-ℤ◌, int_laws}
use sim_trade.Enums.{PositionDirection}
use sim_trade.Money.{Decimal}
use sim_trade.Settlement.Valuation.{AccountValuation, collateral_of, free_after, valuation_of}
use sim_trade.Settlement.Valuation.Laws.{quantize-plain}
use sim_trade.Settlement.Funds.{
  AccountRow, FillTotals, settle_common, settle_future, settle_account,
}

pub available_plain :
    (ratio : Decimal) (v : AccountValuation)
    → (collateral_of ratio v).coefficient ≡ pos 0
    → (valuation_of ratio v).available_cash ≡ free_after v.used_margin v
unfolding valuation_of
available_plain ratio v h = quantize-plain (free_after v.used_margin v) (collateral_of ratio v) h

free_moved :
    (c u sh m fm fc f p k r q : ℤ)
    → (c +ℤ u -ℤ sh -ℤ m -ℤ fm -ℤ fc -ℤ f) +ℤ r -ℤ k +ℤ q +ℤ p
      ≡ (c +ℤ p -ℤ k) +ℤ u -ℤ sh -ℤ (m -ℤ q) -ℤ fm -ℤ fc -ℤ (f -ℤ r)
free_moved c u sh m fm fc f p k r q = omega int_laws

-- The fill of a future that updates the free cash by a difference leaves what a new valuation of the
-- account computes, where the free cash was that of a valuation and the collateral counts nothing. Its
-- equity lacks the net value of the options, and the cash that is free for risk stays as it was.
pub settle_future_valued :
    (ratio : Decimal) (t : FillTotals) (a : AccountRow) (direction : PositionDirection)
    → (collateral_of ratio a.valued).coefficient ≡ pos 0
    → a.available_cash ≡ (valuation_of ratio a.valued).available_cash
    → ((settle_account false ratio direction t a).available_cash
        ≡ (valuation_of ratio (settle_account false ratio direction t a).valued).available_cash)
      × ((settle_account false ratio direction t a).equity
            +ℤ (valuation_of ratio
                (settle_account false ratio direction t a).valued).net_option_market_value
          ≡ (valuation_of ratio (settle_account false ratio direction t a).valued).equity)
      × ((settle_account false ratio direction t a).risk_available_cash ≡ a.risk_available_cash)
unfolding settle_account settle_common settle_future valuation_of
settle_future_valued ratio t a direction h before =
    let v = a.valued in
    let plain = before ∙ available_plain ratio v h in
    let after = available_plain ratio (settle_account false ratio direction t a).valued h in
    (
      rw plain (
            free_moved v.cash_balance v.futures_unrealized_pnl v.short_option_market_value
              v.used_margin v.frozen_margin v.frozen_cash v.frozen_commission t.daily_close_pnl
              t.actual_commission t.released_frozen_commission t.released_margin)
          ∙ sym after,
      refl,
      refl,
    )
