-- ===== src/Settlement/Open/Funds.antt =====
-- The frozen amounts of an order and its account during an opening fill, and what the account is worth.
use sim_trade.Prelude.{◌≡◌, ◌∙◌, refl, sym, ap, inl, inr, Bool, true, false, arith, Bool-cases}
use sim_trade.Prelude.Int.{ℤ, pos, ◌+ℤ◌, ◌-ℤ◌, ◌≤ℤ◌, ◌<ℤ◌, eqb_ℤ, int_laws}
use sim_trade.Errors.{ok}
use sim_trade.Money.{Decimal, Money}
use sim_trade.Positions.MarginRelease.{allocate_frozen_commission}
use sim_trade.Positions.MarginRelease.Laws.{share_bounds}
use sim_trade.Settlement.Rows.{OrderRow}
use sim_trade.Settlement.Valuation.{collateral_of, valuation_of}
use sim_trade.Settlement.Funds.{AccountRow}
use sim_trade.Settlement.Funds.Laws.{available_plain}
use sim_trade.Settlement.Open.Records.{OpenRequest, OpenRows, OpenAmounts, Opened}
use sim_trade.Settlement.Open.Writes.{
  amounts_of, opened_rows, opened_order, opened_position, position_for, is_buy,
  opened_future_account, opened_option_account,
}
use sim_trade.Settlement.Open.{open_fill, account_after}
use sim_trade.Settlement.Open.Laws.{open_fill-IsOpened, fee_positive}

-- What is frozen for an order is not negative.
pub record IsFrozen (o : OrderRow) : Type 0 where
  pub margin : pos 0 ≤ℤ o.frozen_margin
  pub cash : pos 0 ≤ℤ o.frozen_cash
  pub commission : pos 0 ≤ℤ o.frozen_commission

-- The order and the account give up the same frozen amounts, and the margin becomes used.
pub record IsMoved (o : OrderRow) (a : AccountRow) (o' : OrderRow) (a' : AccountRow) : Type 0 where
  pub margin :
      a'.valued.frozen_margin -ℤ o'.frozen_margin ≡ a.valued.frozen_margin -ℤ o.frozen_margin
  pub cash : a'.valued.frozen_cash -ℤ o'.frozen_cash ≡ a.valued.frozen_cash -ℤ o.frozen_cash
  pub commission :
      a'.valued.frozen_commission -ℤ o'.frozen_commission
      ≡ a.valued.frozen_commission -ℤ o.frozen_commission
  pub used :
      a'.valued.used_margin +ℤ a'.valued.frozen_margin
      ≡ a.valued.used_margin +ℤ a.valued.frozen_margin

share_left :
    (amount n whole : ℤ)
    → pos 0 ≤ℤ amount
    → pos 0 <ℤ n
    → n ≤ℤ whole
    → pos 0 ≤ℤ amount -ℤ allocate_frozen_commission amount n whole
share_left amount n whole low some most =
    let (_, high) =
      share_bounds amount n whole
        record { margin_nonneg = low; close_pos = some; close_within = most } in
    omega int_laws

share_whole : (amount n : ℤ) → amount -ℤ allocate_frozen_commission amount n n ≡ pos 0
unfolding allocate_frozen_commission
share_whole amount n = let whole : eqb_ℤ n n ≡ true = ground arith in rw whole (omega int_laws)

-- The order after the fill.
module _ (is_option : Bool) (r : OpenRequest) (o : OrderRow) (commission : Money)
    (positive : pos 0 <ℤ r.fill_volume) (within : r.fill_volume ≤ℤ o.remaining_volume)
    (frozen : IsFrozen o) where
  opened_order-IsFrozen : IsFrozen (opened_order is_option r (amounts_of r o commission) o)
  unfolding opened_order amounts_of
  opened_order-IsFrozen = record {
    margin =
        share_left o.frozen_margin r.fill_volume o.remaining_volume frozen.margin positive within;
    cash = elim (Bool-cases is_option) [
      | inl option ↦
          rw option
            (share_left o.frozen_cash r.fill_volume o.remaining_volume frozen.cash positive within)
      | inr future ↦ rw future frozen.cash
    ];
    commission =
        share_left o.frozen_commission r.fill_volume o.remaining_volume frozen.commission positive
          within;
  }

account_after-IsMoved :
    (is_option : Bool) (r : OpenRequest) (rows : OpenRows) (m : OpenAmounts)
    → IsMoved rows.order rows.account
        (opened_order is_option r m rows.order)
        (account_after is_option r rows m)
unfolding opened_order opened_future_account opened_option_account
account_after-IsMoved false r rows m = record {
  margin = omega int_laws;
  cash = refl;
  commission = omega int_laws;
  used = omega int_laws;
}
account_after-IsMoved true r rows m = elim (Bool-cases (is_buy rows.order.direction)) [
  | inl buys ↦ rw buys record {
    margin = omega int_laws;
    cash = omega int_laws;
    commission = omega int_laws;
    used = omega int_laws;
  }
  | inr sells ↦ rw sells record {
    margin = omega int_laws;
    cash = omega int_laws;
    commission = omega int_laws;
    used = omega int_laws;
  }
]

used_margins :
    (is_option : Bool) (r : OpenRequest) (rows : OpenRows) (m : OpenAmounts)
    → (opened_position is_option r rows.order m (position_for r rows)).used_margin
        -ℤ (account_after is_option r rows m).valued.used_margin
      ≡ (position_for r rows).used_margin -ℤ rows.account.valued.used_margin
unfolding opened_position opened_future_account opened_option_account
used_margins false r rows m = omega int_laws
used_margins true r rows m = elim (Bool-cases (is_buy rows.order.direction)) [
  | inl buys ↦ rw buys (omega int_laws)
  | inr sells ↦ rw sells (omega int_laws)
]

nothing_left :
    (r : OpenRequest) (amount : Money) (o : OrderRow)
    → r.fill_volume ≡ o.remaining_volume
    → amount -ℤ allocate_frozen_commission amount r.fill_volume o.remaining_volume ≡ pos 0
nothing_left r amount o filled =
    ap (λ (w : ℤ). amount -ℤ allocate_frozen_commission amount r.fill_volume w) (sym filled)
    ∙ share_whole amount r.fill_volume

-- A successful opening fill of no more than the remaining volume of an order, of which nothing that is
-- frozen is negative, leaves it so, and nothing of margin and commission frozen where it takes the whole.
-- The order and the account give up the same frozen margin, cash and commission, and the margin becomes
-- used margin of the account and of the position.
pub open_fill-IsMoved :
    (is_option : Bool) (r : OpenRequest) (rows : OpenRows) (c : Opened)
    → IsFrozen rows.order
    → r.fill_volume ≤ℤ rows.order.remaining_volume
    → open_fill is_option r rows ≡ ok c
    → IsFrozen c.order
      × IsMoved rows.order rows.account c.order c.account
      × (c.position.used_margin -ℤ c.account.valued.used_margin
          ≡ (position_for r rows).used_margin -ℤ rows.account.valued.used_margin)
      × (r.fill_volume ≡ rows.order.remaining_volume
          → (c.order.frozen_margin ≡ pos 0) × (c.order.frozen_commission ≡ pos 0))
unfolding opened_rows opened_order amounts_of
open_fill-IsMoved is_option r rows c frozen within h =
    let q = (open_fill-IsOpened is_option r rows).ensured h in
    let positive = fee_positive _ _ _ _ _ q.commission q.fee in
    rw q.written (
      opened_order-IsFrozen is_option r rows.order q.commission positive within frozen,
      account_after-IsMoved is_option r rows (amounts_of r rows.order q.commission),
      used_margins is_option r rows (amounts_of r rows.order q.commission),
      (λ filled. (
        nothing_left r rows.order.frozen_margin rows.order filled,
        nothing_left r rows.order.frozen_commission rows.order filled,
      )),
    )

free_moved :
    (c u sh m fm fc f k r q : ℤ)
    → (c +ℤ u -ℤ sh -ℤ m -ℤ fm -ℤ fc -ℤ f) +ℤ r -ℤ k
      ≡ (c -ℤ k) +ℤ u -ℤ sh -ℤ (m +ℤ q) -ℤ (fm -ℤ q) -ℤ fc -ℤ (f -ℤ r)
free_moved c u sh m fm fc f k r q = omega int_laws

future_valued :
    (ratio : Decimal) (m : OpenAmounts) (a : AccountRow)
    → (collateral_of ratio a.valued).coefficient ≡ pos 0
    → a.available_cash ≡ (valuation_of ratio a.valued).available_cash
    → (opened_future_account m a).available_cash
      ≡ (valuation_of ratio (opened_future_account m a).valued).available_cash
unfolding opened_future_account
future_valued ratio m a none_counts before =
    let v = a.valued in
    let plain = before ∙ available_plain ratio v none_counts in
    let after = available_plain ratio (opened_future_account m a).valued none_counts in
    rw plain (
      free_moved v.cash_balance v.futures_unrealized_pnl v.short_option_market_value v.used_margin
        v.frozen_margin v.frozen_cash v.frozen_commission m.commission m.released_commission
        m.margin)
    ∙ sym after

account_after-valued :
    (is_option : Bool) (r : OpenRequest) (rows : OpenRows) (m : OpenAmounts)
    → (collateral_of r.option_collateral_ratio rows.account.valued).coefficient ≡ pos 0
    → rows.account.available_cash
      ≡ (valuation_of r.option_collateral_ratio rows.account.valued).available_cash
    → (account_after is_option r rows m).available_cash
      ≡ (valuation_of r.option_collateral_ratio
          (account_after is_option r rows m).valued).available_cash
unfolding opened_option_account
account_after-valued false r rows m none_counts before =
    future_valued r.option_collateral_ratio m rows.account none_counts before
account_after-valued true r rows m none_counts before = refl

-- A successful opening fill leaves the available cash that a valuation of the account as it then stands
-- computes, where the cash before was that of a valuation and no long option counts as collateral: the
-- future, which updates it by a difference, and the option, which values the account anew.
pub open_fill_valued :
    (is_option : Bool) (r : OpenRequest) (rows : OpenRows) (c : Opened)
    → (collateral_of r.option_collateral_ratio rows.account.valued).coefficient ≡ pos 0
    → rows.account.available_cash
      ≡ (valuation_of r.option_collateral_ratio rows.account.valued).available_cash
    → open_fill is_option r rows ≡ ok c
    → c.account.available_cash
      ≡ (valuation_of r.option_collateral_ratio c.account.valued).available_cash
unfolding opened_rows
open_fill_valued is_option r rows c none_counts before h =
    let q = (open_fill-IsOpened is_option r rows).ensured h in
    rw q.written (
      account_after-valued is_option r rows (amounts_of r rows.order q.commission) none_counts
        before)
