-- ===== src/Settlement/Trade/Statuses.antt =====
-- The status of the order that a fill leaves says whether anything is left of it.
use sim_trade.Prelude.{◌≡◌, ◌≢◌, ◌⊎◌, inl, inr, refl, Bool, true, false, not, Bool-cases}
use sim_trade.Prelude.Int.{ℤ, pos, ◌-ℤ◌, eqb_ℤ}
use sim_trade.Errors.{raise_if, Ensures, ok-Ensures, >>=-Ensures, >>-Ensures}
use sim_trade.Money.{Decimal}
use sim_trade.Enums.{filled, partially_filled}
use sim_trade.Positions.MarginRelease.Laws.{eqb_ℤ→eq}
use sim_trade.Settlement.Rows.{OrderRow}
use sim_trade.Settlement.Funds.{FillTotals, settle_order}
use sim_trade.Settlement.Close.Records.{CloseRequest, CloseRows, Closed}
use sim_trade.Settlement.Close.{
  prepare_close, written_close, write_close, parts_add_up, rows_add_up, apply_close,
}
use sim_trade.Settlement.Open.Records.{OpenRequest, OpenRows, OpenAmounts, Opened}
use sim_trade.Settlement.Open.Writes.{opened_rows, opened_order, amounts_of}
use sim_trade.Settlement.Open.{open_fill}
use sim_trade.Settlement.Open.Laws.{open_fill-IsOpened}

-- The status of an order that a fill leaves.
abbrev pub HasStatus : OrderRow → Type 0
HasStatus o =
    ((o.remaining_volume ≡ pos 0) × (o.status ≡ filled))
    ⊎ ((o.remaining_volume ≢ pos 0) × (o.status ≡ partially_filled))

status_of :
    (left : ℤ)
    → ((left ≡ pos 0) × (eqb_ℤ left (pos 0) ≡ true))
      ⊎ ((left ≢ pos 0) × (eqb_ℤ left (pos 0) ≡ false))
status_of left = elim (Bool-cases (eqb_ℤ left (pos 0))) [
  | inl none_left ↦ inl (eqb_ℤ→eq left (pos 0) none_left, none_left)
  | inr unfilled ↦ inr (λ e. let same = rw e at unfilled in absurd cc, unfilled)
]

settle_order-HasStatus :
    (is_option : Bool) (t : FillTotals) (fill_price : Decimal) (fill_volume : ℤ) (o : OrderRow)
    → HasStatus (settle_order is_option t fill_price fill_volume o)
unfolding settle_order
settle_order-HasStatus is_option t fill_price fill_volume o =
    elim (status_of (o.remaining_volume -ℤ fill_volume)) [
      | inl (done, test) ↦ inl (done, rw test refl)
      | inr (unfilled, test) ↦ inr (unfilled, rw test refl)
    ]

opened_order-HasStatus :
    (is_option : Bool) (r : OpenRequest) (m : OpenAmounts) (o : OrderRow)
    → HasStatus (opened_order is_option r m o)
unfolding opened_order
opened_order-HasStatus is_option r m o = elim (status_of (o.remaining_volume -ℤ r.fill_volume)) [
  | inl (done, test) ↦ inl (done, rw test refl)
  | inr (unfilled, test) ↦ inr (unfilled, rw test refl)
]

pub apply_close-HasStatus :
    (r : CloseRequest) (rows : CloseRows)
    → Ensures (λ (c : Closed). HasStatus c.order) (apply_close r rows)
unfolding apply_close write_close written_close
apply_close-HasStatus r rows = >>=-Ensures (prepare_close r rows) (λ q _.
    let c = written_close r rows q in
    >>-Ensures (raise_if (not (parts_add_up c.trade c.parts)) _) (λ _.
      >>-Ensures (raise_if (not (rows_add_up c.order c.position c.allocations)) _) (λ _.
        ok-Ensures (λ (c : Closed). HasStatus c.order) _
          (settle_order-HasStatus q.is_option q.totals r.fill_price r.fill_volume rows.order))))

pub open_fill-HasStatus :
    (is_option : Bool) (r : OpenRequest) (rows : OpenRows)
    → Ensures (λ (c : Opened). HasStatus c.order) (open_fill is_option r rows)
unfolding opened_rows
open_fill-HasStatus is_option r rows = record {
  ensured = λ e.
      let q = (open_fill-IsOpened is_option r rows).ensured e in
      rw q.written
        (opened_order-HasStatus is_option r (amounts_of r rows.order q.commission) rows.order);
}
