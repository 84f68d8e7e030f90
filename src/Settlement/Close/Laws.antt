-- ===== src/Settlement/Close/Laws.antt =====
-- A fill of a closing order whose checks have passed is written, and leaves consistent rows.
use sim_trade.Prelude.{◌≡◌, ◌∙◌, refl, sym, ap, true, List, [], ◌∷◌, map, All, All-map, arith}
use sim_trade.Prelude.Int.{ℤ, pos, ◌+ℤ◌, ◌-ℤ◌, ◌≤ℤ◌, eqb_ℤ}
use sim_trade.Errors.{ok}
use sim_trade.Settlement.Rows.{PositionRow}
use sim_trade.Settlement.Tables.{total, occurs_once}
use sim_trade.Settlement.Consumption.{write_consumptions}
use sim_trade.Settlement.Consumption.Laws.{IsUsable, frozen_volume_of}
use sim_trade.Settlement.Consumption.Writes.{total-frozen_volume_of}
use sim_trade.Settlement.Consumption.Effects.{IsSettling, consumptions_of-IsSettling}
use sim_trade.Settlement.Consumption.Keys.{AreUnique, write_allocations_unique}
use sim_trade.Settlement.Funds.{FillTotals, settle_order}
use sim_trade.Settlement.Close.Position.{settle_position}
use sim_trade.Settlement.Funds.Orders.{IsConsistent, settle_order-IsConsistent}
use sim_trade.Settlement.Close.Records.{CloseRequest, CloseRows, Prepared, Closed}
use sim_trade.Settlement.Close.{
  part_of, trade_of, fill_of, totals_of, prepare_close, written_close, write_close, apply_close,
  parts_add_up, rows_add_up,
}
use sim_trade.Settlement.Close.Ready.{IsReady, prepare_close-IsReady}
use sim_trade.Settlement.Close.Position.Volumes.{settle_position_volumes, days-open_details}
use sim_trade.Settlement.Close.Lots.{
  IsPositioned, StandsOnce, stands_once, taken, lots_after-IsPositioned,
}

total-map :
    {A B : Type 0} (part : A → B) (column : B → ℤ) (xs : List A)
    → total column (map part xs) ≡ total (λ x. column (part x)) xs
total-map part column [] = refl
total-map part column (x ∷ rest) = ap (λ (v : ℤ). column (part x) +ℤ v) (total-map part column rest)

eqb_ℤ-same : (a b : ℤ) → a ≡ b → eqb_ℤ a b ≡ true
eqb_ℤ-same a b h = rw h (ground arith)

-- What a written fill leaves.
pub record IsSettled (r : CloseRequest) (rows : CloseRows) (p : PositionRow) (c : Closed)
    : Type 0 where
  pub order : IsConsistent c.order c.allocations
  pub position : IsPositioned rows.order.trading_day c.lots c.position
  pub days : c.position.total_volume ≡ c.position.today_volume +ℤ c.position.yesterday_volume
  pub available :
      c.position.available_volume
      ≡ c.position.total_volume -ℤ c.position.frozen_volume -ℤ c.position.settlement_locked_volume
  pub unique : AreUnique c.allocations
  pub closed : c.position.total_volume ≡ p.total_volume -ℤ r.fill_volume
  pub traded : total (λ x. x.close_volume) c.parts ≡ c.trade.trade_volume

module _ (r : CloseRequest) (rows : CloseRows) (q : Prepared) (ready : IsReady r rows q)
    (unique : AreUnique rows.allocations)
    (positioned : IsPositioned rows.order.trading_day rows.lots q.position) where
  usable : All IsUsable rows.allocations
  usable = All-map (λ a b. b.balanced.usable) rows.allocations ready.settleable.backed

  low : pos 0 ≤ℤ r.fill_volume
  low = let h = ready.settleable.positive in omega arith

  high : r.fill_volume ≤ℤ frozen_volume_of rows.allocations
  high =
      let s = ready.settleable in rw (s.consistent.frozen_volume, s.consistent.remaining) s.within

  settled :
      IsSettling
        (fill_of q.is_option r rows q.position)
        rows.allocations
        (StandsOnce rows.lots)
        r.fill_volume
        q.consumptions
  settled =
      (consumptions_of-IsSettling (StandsOnce rows.lots) (fill_of q.is_option r rows q.position)
          rows.allocations r.fill_volume
          (stands_once rows.lots rows.allocations positioned.distinct) usable low high).ensured
        ready.made

  released :
      q.totals.released_frozen_commission ≡ total (λ c. c.released_frozen_commission) q.consumptions
  unfolding totals_of
  released = ap (λ (t : FillTotals). t.released_frozen_commission) ready.sums

  written_order :
      IsConsistent
        (settle_order q.is_option q.totals r.fill_price r.fill_volume rows.order)
        (write_consumptions q.is_option q.consumptions (rows.lots, rows.allocations)).1
  written_order =
      settle_order-IsConsistent (fill_of q.is_option r rows q.position) rows.allocations rows.lots
        r.fill_volume q.consumptions rows.order q.totals
        (occurs_once (λ a. a.allocation_id) rows.allocations unique.by_id) usable
        ready.settleable.consistent low ready.settleable.within ready.made released

  written_close-IsSettled : IsSettled r rows q.position (written_close r rows q)
  unfolding written_close trade_of
  written_close-IsSettled =
      let f = fill_of q.is_option r rows q.position in
      let day = rows.order.trading_day in
      let lots = (write_consumptions q.is_option q.consumptions (rows.lots, rows.allocations)).0 in
      let (v, w, t, y, a) =
        settle_position_volumes q.is_option q.totals day r.fill_volume lots q.position in
      let position =
        lots_after-IsPositioned day rows.order f q.position rows.allocations r.fill_volume
          q.consumptions unique positioned ready.settleable.backed settled
          (settle_position q.is_option q.totals day r.fill_volume lots q.position) v w in
      record {
        order = written_order;
        position = position;
        days =
            sym position.total_volume
            ∙ sym (days-open_details day lots position.held)
            ∙ rw (t, y) refl;
        available = a;
        unique =
            write_allocations_unique q.is_option q.consumptions rows.lots rows.allocations unique;
        closed = v;
        traded =
            total-map (part_of r rows.order) (λ x. x.close_volume) q.consumptions
            ∙ taken day rows.order f q.position rows.allocations r.fill_volume q.consumptions unique
                positioned ready.settleable.backed settled;
      }

  parts_add_up-written :
      parts_add_up (written_close r rows q).trade (written_close r rows q).parts ≡ true
  unfolding written_close trade_of totals_of
  parts_add_up-written =
      let s = ready.sums in
      let volume = eqb_ℤ-same _ _ written_close-IsSettled.traded in
      let margin = eqb_ℤ-same _ _ (
        total-map (part_of r rows.order) (λ x. x.released_margin) q.consumptions
        ∙ ap (λ (t : FillTotals). t.released_margin) (sym s)) in
      let realized = eqb_ℤ-same _ _ (
        total-map (part_of r rows.order) (λ x. x.realized_pnl) q.consumptions
        ∙ ap (λ (t : FillTotals). t.realized_pnl) (sym s)) in
      let commission = eqb_ℤ-same _ _ (
        total-map (part_of r rows.order) (λ x. x.commission) q.consumptions
        ∙ ap (λ (t : FillTotals). t.actual_commission) (sym s)) in
      rw (volume, margin, realized, commission) refl

  rows_add_up-written :
      rows_add_up
        (written_close r rows q).order
        (written_close r rows q).position
        (written_close r rows q).allocations
      ≡ true
  rows_add_up-written =
      let s = written_close-IsSettled in
      let c = written_close r rows q in
      let days = eqb_ℤ-same _ _ s.days in
      let available = eqb_ℤ-same _ _ s.available in
      let volumes = eqb_ℤ-same _ _ s.order.volumes in
      let frozen = eqb_ℤ-same _ _ (total-frozen_volume_of c.allocations ∙ s.order.frozen_volume) in
      let commission = eqb_ℤ-same _ _ s.order.frozen_commission in
      rw (days, available, volumes, frozen, commission) refl

-- Once the checks before the writes have passed, for an order whose allocations the unique constraints
-- hold apart and a position whose volumes are the sums over its lots, the fill is written: neither check
-- after the writes raises. The order and its allocations hold the same frozen volume and commission
-- again, the position has the sums over its lots, those of today and of before together, less by the
-- fill, and the parts of the trade add up to its volume.
pub apply_close-IsSettled :
    (r : CloseRequest) (rows : CloseRows) (q : Prepared)
    → prepare_close r rows ≡ ok q
    → AreUnique rows.allocations
    → IsPositioned rows.order.trading_day rows.lots q.position
    → (c : Closed) × (apply_close r rows ≡ ok c) × IsSettled r rows q.position c
unfolding apply_close write_close
apply_close-IsSettled r rows q h unique positioned =
    let ready = (prepare_close-IsReady r rows).ensured h in
    let parts = parts_add_up-written r rows q ready unique positioned in
    let sums = rows_add_up-written r rows q ready unique positioned in
    (
      written_close r rows q,
      rw h (rw parts (rw sums refl)),
      written_close-IsSettled r rows q ready unique positioned,
    )
