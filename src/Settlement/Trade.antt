-- ===== src/Settlement/Trade.antt =====
-- The settlement of one match as a transaction: `TradeSettlementService.settle`,
-- app/services/trade_settlement_service.py, with the gate of app/services/settlement_gate_service.py and the
-- families of app/services/product_strategy_registry.py. Rows are what the locking queries of the call
-- find. The database is taken to keep nothing of a transaction that is rolled back, which is what `commit`
-- gives for a call that raises or finds nothing to do. `ensure_locked` of
-- app/services/option_order_margin_adjustment_service.py, which re-estimates a margin from quotes, is an
-- argument that answers or raises.
pub mod Statuses
pub mod Events
pub mod Records
pub mod Laws
pub mod Atomic
pub mod Again
mod Tests
use sim_trade.Prelude.{
  ℕ, Bool, true, false, not, ◌&&◌, Option, none, some, List, [], ◌∷◌, ◌++◌, leb, ◌<◌, if◌then◌else◌,
}
use sim_trade.Prelude.Int.{ℤ, pos, ltb_ℤ, min_ℤ}
use sim_trade.Errors.{
  ErrorCode, Result, ok, err, ◌>>=◌, ◌>>◌, raise_if, settlement_account_not_found,
  settlement_instrument_not_found, settlement_product_type_mismatch,
  product_trade_settlement_not_implemented, product_strategy_not_registered,
  daily_settlement_trading_closed, trading_day_already_settled, trade_settlement_conflict,
  trade_settlement_failed,
}
use sim_trade.Enums.{
  OffsetFlag, open_flag, OrderStatus, accepted, partially_filled, filled, InstrumentType, futures,
  futures_option, index_option, stock, convertible_bond, etf, index, ProductFamily, futures_family,
  options_family, stocks_family, convertible_bonds_family,
}
use sim_trade.Money.{Decimal, of_money, quantize_money}
use sim_trade.Matching.Types.{MatchResult}
use sim_trade.Settlement.Rows.{OrderRow, PositionRow}
use sim_trade.Settlement.Funds.{AccountRow}
use sim_trade.Settlement.Close.Records.{CloseRequest, CloseRows, Closed}
use sim_trade.Settlement.Close.{apply_close}
use sim_trade.Settlement.Open.Records.{OpenRequest, OpenRows, Opened}
use sim_trade.Settlement.Open.{open_fill}
use sim_trade.Settlement.Trade.Records.{
  SettlementCommand, SettlementAction, not_matched, order_missing, idempotent, order_inactive,
  margin_refused, settled, SettlementResult, TradeEvent, trade_created, order_filled,
  order_partially_filled, position_updated, account_updated, TradeRows, MarginCheck, StoreOutcome,
  stored, integrity_error, database_error, Batch, Surroundings,
}

-- `SettlementGateService.ensure_trading_open`
pub ensure_trading_open : Option Batch → Option ℕ → Result (Unit {0})
ensure_trading_open none day = ok tt
ensure_trading_open (some b) none = raise_if (not b.is_completed) daily_settlement_trading_closed
ensure_trading_open (some b) (some day) =
    raise_if (not b.is_completed) daily_settlement_trading_closed
    >> raise_if (leb day b.trading_day) trading_day_already_settled

abbrev pub is_active : OrderStatus → Bool
is_active accepted = true
is_active partially_filled = true
is_active _ = false

-- Every type of order and every flag of the enumerations is supported.
abbrev pub is_member : {A : Type 0} → Option A → Bool
is_member none = false
is_member (some x) = true

abbrev pub has_price : Option Decimal → Bool
has_price none = false
has_price (some price) = ltb_ℤ (pos 0) price.coefficient

pub is_matchable_order : OrderRow → MatchResult → Bool
is_matchable_order o m =
    is_active o.status
    && (ltb_ℤ (pos 0) o.remaining_volume
        && (is_member o.order_type
            && (is_member o.offset_flag
                && (has_price m.fill_price && ltb_ℤ (pos 0) m.fill_volume))))

abbrev pub same_instrument : Option InstrumentType → Option InstrumentType → Bool
same_instrument (some futures) (some futures) = true
same_instrument (some futures_option) (some futures_option) = true
same_instrument (some index) (some index) = true
same_instrument (some index_option) (some index_option) = true
same_instrument (some stock) (some stock) = true
same_instrument (some convertible_bond) (some convertible_bond) = true
same_instrument (some etf) (some etf) = true
same_instrument _ _ = false

-- `product_registry.resolve(...).family`, with the strategies that the module registers
abbrev pub family_of : Option InstrumentType → Result ProductFamily
family_of (some futures) = ok futures_family
family_of (some futures_option) = ok options_family
family_of (some index_option) = ok options_family
family_of (some stock) = ok stocks_family
family_of (some convertible_bond) = ok convertible_bonds_family
family_of _ = err product_strategy_not_registered

abbrev pub is_opening : Option OffsetFlag → Bool
is_opening (some open_flag) = true
is_opening _ = false

abbrev pub found_or : {A : Type 0} → ErrorCode → Option A → Result A
found_or code none = err code
found_or code (some x) = ok x

-- `quantize_money(match_result.fill_price)`, for an order that is matchable
abbrev pub price_of : Option Decimal → Decimal
price_of none = of_money (pos 0)
price_of (some price) = of_money (quantize_money price)

-- `_create_outbox_events`
pub events_of : ℕ → OrderRow → AccountRow → PositionRow → List TradeEvent
events_of trade_id o a p =
    trade_created trade_id
    ∷ (elim o.status [ filled ↦ order_filled o | _ ↦ order_partially_filled o ])
    ∷ position_updated p
    ∷ account_updated a
    ∷ []

abbrev pub done : SettlementCommand → TradeRows → SettlementResult × TradeRows
done cmd rows = (record { trade_id = some cmd.trade_id; action = settled }, rows)

-- No more than the order has left under its lock.
abbrev pub fill_volume_of : SettlementCommand → OrderRow → ℤ
fill_volume_of cmd o = min_ℤ cmd.match_result.fill_volume o.remaining_volume

abbrev pub close_request : SettlementCommand → OrderRow → CloseRequest
close_request cmd o = record {
  fill_volume = fill_volume_of cmd o;
  fill_price = price_of cmd.match_result.fill_price;
  option_collateral_ratio = cmd.option_collateral_ratio;
}

abbrev pub close_rows : OrderRow → AccountRow → TradeRows → CloseRows
close_rows o a rows = record {
  order = o;
  account = a;
  position = rows.position;
  lots = rows.lots;
  allocations = rows.allocations;
}

pub settle_close :
    SettlementCommand → OrderRow → AccountRow → TradeRows → Result (SettlementResult × TradeRows)
unfolding events_of
settle_close cmd o a rows =
    apply_close (close_request cmd o) (close_rows o a rows) >>= λ (c : Closed). ok (
      done cmd record rows {
        order = some c.order;
        traded = some cmd.trade_id;
        account = some c.account;
        position = some c.position;
        lots = c.lots;
        allocations = c.allocations;
        events = rows.events ++ events_of cmd.trade_id c.order c.account c.position;
      })

abbrev pub open_request : SettlementCommand → OrderRow → OpenRequest
open_request cmd o = record {
  fill_volume = fill_volume_of cmd o;
  fill_price = price_of cmd.match_result.fill_price;
  option_collateral_ratio = cmd.option_collateral_ratio;
  position_id = cmd.position_id;
  position_detail_id = cmd.position_detail_id;
}

abbrev pub open_rows : OrderRow → AccountRow → TradeRows → OpenRows
open_rows o a rows = record { order = o; account = a; position = rows.position; lots = rows.lots }

pub fill_open :
    Bool
    → SettlementCommand
    → OrderRow
    → AccountRow
    → TradeRows
    → Result (SettlementResult × TradeRows)
unfolding events_of
fill_open is_option cmd o a rows =
    open_fill is_option (open_request cmd o) (open_rows o a rows) >>= λ (c : Opened). ok (
      done cmd record rows {
        order = some c.order;
        traded = some cmd.trade_id;
        account = some c.account;
        position = some c.position;
        lots = c.lots;
        events = rows.events ++ events_of cmd.trade_id c.order c.account c.position;
      })

abbrev pub fill_family :
    ProductFamily
    → SettlementCommand
    → OrderRow
    → AccountRow
    → TradeRows
    → Result (SettlementResult × TradeRows)
fill_family options_family cmd o a rows = fill_open true cmd o a rows
fill_family futures_family cmd o a rows = fill_open false cmd o a rows
fill_family _ cmd o a rows = err product_trade_settlement_not_implemented

-- The fill goes on with the order and the account as the check of the margin has left them.
abbrev pub settle_open :
    ProductFamily
    → SettlementCommand
    → MarginCheck
    → TradeRows
    → Result (SettlementResult × TradeRows)
settle_open family cmd check rows =
    if check.is_refused
    then ok (
      record { trade_id = none; action = margin_refused },
      record rows { order = some check.order; account = some check.account },
    )
    else fill_family family cmd check.order check.account rows

-- From the lock of the account on.
pub settle_locked :
    Surroundings → SettlementCommand → OrderRow → TradeRows → Result (SettlementResult × TradeRows)
unfolding settle_close fill_open
settle_locked e cmd o rows = do
  a ← found_or settlement_account_not_found rows.account
  t ← found_or settlement_instrument_not_found rows.instrument
  raise_if (not (same_instrument t o.instrument_type)) settlement_product_type_mismatch
  family ← family_of o.instrument_type
  if is_opening o.offset_flag
      then (e.ensure_locked o a >>= λ (check : MarginCheck). settle_open family cmd check rows)
      else settle_close cmd o a rows

abbrev pub nothing_done :
    SettlementAction → Option ℕ → TradeRows → Result (SettlementResult × TradeRows)
nothing_done action trade_id rows = ok (record { trade_id = trade_id; action = action }, rows)

-- `if existing is not None: ...`
abbrev pub unless_traded :
    Option ℕ
    → TradeRows
    → Result (SettlementResult × TradeRows)
    → Result (SettlementResult × TradeRows)
unless_traded (some trade_id) rows next = nothing_done idempotent (some trade_id) rows
unless_traded none rows next = next

-- `if order is None: ...`
abbrev pub when_found :
    Option OrderRow
    → TradeRows
    → (OrderRow → Result (SettlementResult × TradeRows))
    → Result (SettlementResult × TradeRows)
when_found none rows next = nothing_done order_missing none rows
when_found (some o) rows next = next o

-- From the lock of the order on.
pub settle_found :
    Surroundings → SettlementCommand → OrderRow → TradeRows → Result (SettlementResult × TradeRows)
unfolding ensure_trading_open is_matchable_order settle_locked
settle_found e cmd o rows =
    ensure_trading_open e.latest_batch (some o.trading_day)
    >> unless_traded rows.traded rows (
        if is_matchable_order o cmd.match_result
        then settle_locked e cmd o rows
        else nothing_done order_inactive none rows)

pub settle_rows :
    Surroundings → SettlementCommand → TradeRows → Result (SettlementResult × TradeRows)
unfolding settle_found
settle_rows e cmd rows =
    ensure_trading_open e.latest_batch none
    >> when_found rows.order rows (λ o. settle_found e cmd o rows)

-- What the handlers of the exceptions of the database make of the call.
abbrev pub after_store :
    StoreOutcome
    → Option ℕ
    → TradeRows
    → SettlementResult
    → TradeRows
    → Result SettlementResult × TradeRows
after_store stored raced rows result written = (ok result, written)
after_store database_error raced rows result written = (err trade_settlement_failed, rows)
after_store integrity_error none rows result written = (err trade_settlement_conflict, rows)
after_store integrity_error (some trade_id) rows result written =
    (ok record { trade_id = some trade_id; action = idempotent }, rows)

-- Only a fill and a refusal are written.
abbrev pub is_written : SettlementAction → Bool
is_written settled = true
is_written margin_refused = true
is_written _ = false

abbrev pub when_written :
    Bool
    → SettlementResult
    → TradeRows
    → Result SettlementResult × TradeRows
    → Result SettlementResult × TradeRows
when_written true result rows outcome = outcome
when_written false result rows outcome = (ok result, rows)

pub commit :
    Surroundings
    → TradeRows
    → Result (SettlementResult × TradeRows)
    → Result SettlementResult × TradeRows
commit e rows (err code) = (err code, rows)
commit e rows (ok (result, written)) =
    when_written (is_written result.action) result rows
      (after_store e.store e.raced rows result written)

-- A match that was none opens no transaction.
pub settle : Surroundings → SettlementCommand → TradeRows → Result SettlementResult × TradeRows
unfolding settle_rows commit
settle e cmd rows =
    when_written cmd.match_result.matched (record { trade_id = none; action = not_matched }) rows
      (commit e rows (settle_rows e cmd rows))
