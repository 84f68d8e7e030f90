-- ===== src/Settlement/Open/Laws.antt =====
-- What an opening fill leaves of the volumes and of the frozen amounts.
use sim_trade.Prelude.{
  ℕ, ◌+◌, ◌≤◌, ◌≡◌, ◌∙◌, refl, inl, inr, Bool, true, false, not, ◌&&◌, ◌||◌, Option, List, [], ◌∷◌,
  ◌++◌, All-map, All-append, arith, Bool-cases, ◌==◌,
}
use sim_trade.Prelude.Int.{ℤ, pos, ◌+ℤ◌, ◌-ℤ◌, ◌<ℤ◌, ltb_ℤ, int_laws}
use sim_trade.Errors.{ok, raise_if, Ensures, ok-Ensures, >>=-Ensures, >>-Ensures}
use sim_trade.Enums.{CommissionType}
use sim_trade.Money.{Decimal, Money, is_nonpositive}
use sim_trade.Fees.Snapshot.{calculate_from_snapshot}
use sim_trade.Settlement.Rows.{LotRow}
use sim_trade.Settlement.Tables.{count, total, AreDistinct}
use sim_trade.Settlement.Funds.{AccountRow}
use sim_trade.Settlement.Consumption.Keys.{lot_id}
use sim_trade.Settlement.Close.Position.Volumes.{IsHeld}
use sim_trade.Settlement.Close.Lots.{IsPositioned}
use sim_trade.Settlement.Funds.Orders.{IsReduced}
use sim_trade.Settlement.Open.Records.{OpenRequest, OpenRows, OpenAmounts, Opened}
use sim_trade.Settlement.Open.Writes.{
  amounts_of, opened_rows, opened_order, opened_position, opened_lot, position_for, is_sell,
}
use sim_trade.Settlement.Open.{
  fee_of, keeps_multiplier, changes_rule, has_normal_risk, open_future, open_option, open_fill,
  account_after, premium_after,
}

-- The rows that a successful fill leaves are the written ones, and its fee was computed.
pub record IsOpened (is_option : Bool) (r : OpenRequest) (rows : OpenRows) (c : Opened)
    : Type 0 where
  pub commission : Money
  pub fee : fee_of r rows.order ≡ ok commission
  pub written :
      c
      ≡ opened_rows is_option r rows
          (amounts_of r rows.order commission)
          (account_after is_option r rows (amounts_of r rows.order commission))
          (premium_after is_option rows (amounts_of r rows.order commission))

open_future-IsOpened :
    (r : OpenRequest) (rows : OpenRows) → Ensures (IsOpened false r rows) (open_future r rows)
unfolding open_future
open_future-IsOpened r rows = >>=-Ensures (fee_of r rows.order) (λ commission fee.
    >>-Ensures
      (raise_if
        (ltb_ℤ rows.account.valued.frozen_margin (amounts_of r rows.order commission).margin
          || ltb_ℤ rows.account.valued.frozen_commission
              (amounts_of r rows.order commission).released_commission)
        _)
      (λ _. >>-Ensures (raise_if (not (keeps_multiplier r rows)) _) (λ _.
        ok-Ensures (IsOpened false r rows) _
          record { commission = commission; fee = fee; written = refl })))

open_option-IsOpened :
    (r : OpenRequest) (rows : OpenRows) → Ensures (IsOpened true r rows) (open_option r rows)
unfolding open_option
open_option-IsOpened r rows =
    >>-Ensures
      (raise_if (is_sell rows.order.direction && not (has_normal_risk rows.account.risk_state)) _)
      (λ _. >>=-Ensures (fee_of r rows.order) (λ commission fee.
        >>-Ensures (raise_if (is_nonpositive rows.order.commission_contract_multiplier) _) (λ _.
          >>-Ensures
            (raise_if
              (ltb_ℤ rows.account.valued.frozen_margin (amounts_of r rows.order commission).margin
                || (ltb_ℤ rows.account.valued.frozen_cash
                      (amounts_of r rows.order commission).released_cash
                    || ltb_ℤ rows.account.valued.frozen_commission
                        (amounts_of r rows.order commission).released_commission))
              _)
            (λ _. >>-Ensures (raise_if (changes_rule rows.order (position_for r rows)) _) (λ _.
              >>-Ensures (raise_if (not (keeps_multiplier r rows)) _) (λ _.
                ok-Ensures (IsOpened true r rows) _
                  record { commission = commission; fee = fee; written = refl }))))))

pub open_fill-IsOpened :
    (is_option : Bool) (r : OpenRequest) (rows : OpenRows)
    → Ensures (IsOpened is_option r rows) (open_fill is_option r rows)
open_fill-IsOpened true r rows = open_option-IsOpened r rows
open_fill-IsOpened false r rows = open_future-IsOpened r rows

-- A fee is computed for a positive volume only.
pub fee_positive :
    (price : Decimal) (volume : ℤ) (t : Option CommissionType) (parameter multiplier : Decimal)
    → (fee : Money) → calculate_from_snapshot price volume t parameter multiplier ≡ ok fee
    → pos 0 <ℤ volume
unfolding calculate_from_snapshot
fee_positive price volume t parameter multiplier fee h = ground arith

total-append :
    (column : LotRow → ℤ) (lots : List LotRow) (l : LotRow)
    → total column (lots ++ l ∷ []) ≡ total column lots +ℤ column l
total-append column [] l = omega int_laws
total-append column (r ∷ rest) l = rw (total-append column rest l) (omega int_laws)

count-append :
    (key : ℕ) (lots : List LotRow) (l : LotRow)
    → count lot_id key (lots ++ l ∷ []) ≡ count lot_id key lots + count lot_id key (l ∷ [])
count-append key [] l = omega arith
count-append key (r ∷ rest) l =
    let others = count-append key rest l in
    elim (Bool-cases (r.position_detail_id == key)) [
      | inl same ↦ rw (same, others) (omega arith)
      | inr other ↦ rw (other, others) (omega arith)
    ]

append-AreDistinct :
    (lots : List LotRow) (l : LotRow)
    → AreDistinct lot_id lots
    → count lot_id l.position_detail_id lots ≡ 0
    → AreDistinct lot_id (lots ++ l ∷ [])
append-AreDistinct lots l d new key =
    rw (count-append key lots l) (elim (Bool-cases (l.position_detail_id == key)) [
      | inl same ↦
          let k : l.position_detail_id ≡ key = ground arith in
          let none_yet = rw k at new in rw (same, none_yet) (omega arith)
      | inr other ↦ let most = d key in rw other (omega arith)
    ])

later_day : (day later : ℕ) → day ≤ later → (l : LotRow) → IsHeld day l → IsHeld later l
later_day day later h l (low, opened) = (low, omega arith)

-- What an opening fill makes of the order, the position and the trade.
pub record IsFilled (r : OpenRequest) (rows : OpenRows) (c : Opened) : Type 0 where
  pub volumes :
      c.order.traded_volume +ℤ c.order.remaining_volume +ℤ c.order.cancelled_volume
      ≡ rows.order.traded_volume +ℤ rows.order.remaining_volume +ℤ rows.order.cancelled_volume
  pub position : IsPositioned rows.order.trading_day c.lots c.position
  pub opened : c.position.total_volume ≡ (position_for r rows).total_volume +ℤ r.fill_volume
  pub today : c.position.today_volume ≡ (position_for r rows).today_volume +ℤ r.fill_volume
  pub yesterday : c.position.yesterday_volume ≡ (position_for r rows).yesterday_volume
  pub available :
      c.position.available_volume
      ≡ c.position.total_volume -ℤ c.position.frozen_volume -ℤ c.position.settlement_locked_volume

module _ (is_option : Bool) (r : OpenRequest) (rows : OpenRows) (m : OpenAmounts)
    (account : AccountRow) (premium : Money) (day : ℕ) (before : day ≤ rows.order.trading_day)
    (positive : pos 0 <ℤ r.fill_volume) (new : count lot_id r.position_detail_id rows.lots ≡ 0)
    (positioned : IsPositioned day rows.lots (position_for r rows)) where
  opened_rows-IsFilled : IsFilled r rows (opened_rows is_option r rows m account premium)
  unfolding opened_rows opened_order opened_position opened_lot
  opened_rows-IsFilled = record {
    volumes = omega int_laws;
    position = record {
      total_volume =
          total-append (λ l. l.remaining_volume) rows.lots _ ∙ rw positioned.total_volume refl;
      frozen_volume =
          total-append (λ l. l.frozen_volume) rows.lots _
          ∙ rw positioned.frozen_volume (omega int_laws);
      held =
          All-append (IsHeld rows.order.trading_day) rows.lots _
            (All-map (later_day day rows.order.trading_day before) rows.lots positioned.held)
            ((omega arith, omega arith), tt);
      distinct = append-AreDistinct rows.lots _ positioned.distinct new;
    };
    opened = refl;
    today = refl;
    yesterday = refl;
    available = refl;
  }

-- A successful opening fill, of a future or of an option, keeps the sum of the volumes of the order. Where
-- the volumes of the position were the sums over its lots and the identifier of the new lot is unused,
-- they are so afterwards, more by the fill, all of which is added to the volume of today.
pub open_fill-IsFilled :
    (is_option : Bool) (r : OpenRequest) (rows : OpenRows) (day : ℕ) (c : Opened)
    → day ≤ rows.order.trading_day
    → count lot_id r.position_detail_id rows.lots ≡ 0
    → IsPositioned day rows.lots (position_for r rows)
    → open_fill is_option r rows ≡ ok c
    → IsFilled r rows c
open_fill-IsFilled is_option r rows day c before new positioned h =
    let q = (open_fill-IsOpened is_option r rows).ensured h in
    rw q.written (
      opened_rows-IsFilled is_option r rows _ _ _ day before
        (fee_positive _ _ _ _ _ q.commission q.fee) new positioned)

-- A settled fill moves its volume on the order.
pub open_fill-IsReduced :
    (is_option : Bool) (r : OpenRequest) (rows : OpenRows)
    → Ensures (λ c. IsReduced r.fill_volume rows.order c.order) (open_fill is_option r rows)
unfolding opened_rows opened_order
open_fill-IsReduced is_option r rows = record {
  ensured = λ e.
      let q = (open_fill-IsOpened is_option r rows).ensured e in
      rw q.written record { day = refl; traded = refl; remaining = refl; cancelled = refl };
}
