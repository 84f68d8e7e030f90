-- ===== src/Settlement/Close/Ready.antt =====
-- What is known of a closing fill before anything is written.
use sim_trade.Prelude.{not, ◌≡◌, refl, some, none, Option}
use sim_trade.Errors.{
  ok, raise_if, close_resource_inconsistent, Ensures, ok-Ensures, >>=-Ensures, >>-Ensures,
}
use sim_trade.Money.{Money}
use sim_trade.Settlement.Rows.{PositionRow}
use sim_trade.Settlement.Consumption.{consumptions_of}
use sim_trade.Settlement.Validation.{validate_before_mutation}
use sim_trade.Settlement.Validation.Laws.{IsSettleable, validate-IsSettleable}
use sim_trade.Settlement.Close.Records.{CloseRequest, CloseRows, Prepared}
use sim_trade.Settlement.Close.{
  is_option_of, option_share, side_of, required_position, totals_of, lacks_resources, fill_of,
  prepare_close, apply_close, write_close, written_close, parts_add_up, rows_add_up,
}
use sim_trade.Settlement.Funds.Orders.{IsReduced, settle_order-IsReduced}

required_position-eq :
    (o : Option PositionRow) (p : PositionRow) → required_position o ≡ ok p → o ≡ some p
required_position-eq none p h = absurd cc
required_position-eq (some q) p h = cc

-- The consumptions and the sums that the writes use are those of rows that were validated.
pub record IsReady (r : CloseRequest) (rows : CloseRows) (q : Prepared) : Type 0 where
  pub position : rows.position ≡ some q.position
  pub side : q.side ≡ side_of rows.order.direction
  pub settleable :
      IsSettleable rows.order q.position rows.lots rows.allocations r.fill_volume
        (side_of rows.order.direction)
  pub made :
      consumptions_of (fill_of q.is_option r rows q.position) rows.allocations r.fill_volume
      ≡ ok q.consumptions
  pub frozen_cash : Money
  pub market_value : Money
  pub sums : q.totals ≡ totals_of q.is_option r rows.order q.consumptions frozen_cash market_value

pub prepare_close-IsReady :
    (r : CloseRequest) (rows : CloseRows) → Ensures (IsReady r rows) (prepare_close r rows)
unfolding prepare_close
prepare_close-IsReady r rows = >>=-Ensures (is_option_of rows.order.instrument_type) (λ is_option _.
    >>=-Ensures
      (option_share is_option rows.order.frozen_cash r.fill_volume rows.order.remaining_volume)
      (λ frozen_cash _. >>=-Ensures (required_position rows.position) (λ p ep.
        >>-Ensures
          (validate_before_mutation rows.order p rows.lots rows.allocations r.fill_volume
            (side_of rows.order.direction))
          (λ ev.
            >>=-Ensures
              (consumptions_of (fill_of is_option r rows p) rows.allocations r.fill_volume)
              (λ cs made.
                >>=-Ensures
                  (option_share is_option p.option_market_value r.fill_volume p.total_volume)
                  (λ market_value _.
                    >>-Ensures
                      (raise_if
                        (lacks_resources is_option (side_of rows.order.direction) r.fill_volume
                          (totals_of is_option r rows.order cs frozen_cash market_value)
                          rows.account p)
                        close_resource_inconsistent)
                      (λ _. ok-Ensures (IsReady r rows) _ record {
                        position = required_position-eq rows.position p ep;
                        side = refl;
                        settleable =
                            validate-IsSettleable rows.order p rows.lots rows.allocations
                              r.fill_volume (side_of rows.order.direction) ev;
                        made = made;
                        frozen_cash = frozen_cash;
                        market_value = market_value;
                        sums = refl;
                      })))))))

-- A settled fill moves its volume on the order.
pub apply_close-IsReduced :
    (r : CloseRequest) (rows : CloseRows)
    → Ensures (λ c. IsReduced r.fill_volume rows.order c.order) (apply_close r rows)
unfolding apply_close write_close written_close
apply_close-IsReduced r rows = >>=-Ensures (prepare_close r rows) (λ q _.
    let c = written_close r rows q in
    >>-Ensures (raise_if (not (parts_add_up c.trade c.parts)) _) (λ _.
      >>-Ensures (raise_if (not (rows_add_up c.order c.position c.allocations)) _) (λ _.
        ok-Ensures (λ c. IsReduced r.fill_volume rows.order c.order) _
          (settle_order-IsReduced q.is_option q.totals r.fill_price r.fill_volume rows.order))))
