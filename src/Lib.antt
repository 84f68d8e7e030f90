-- ===== src/Lib.antt =====
-- The trading core of the simulation service: fees, matching, lots, risk states and frozen funds.
--
-- The program is an order and settlement service over a database. An order is checked, the account
-- freezes funds for it (app/services/order_freeze_service.py), a closing order takes lots of a
-- position (app/services/position_close_allocator.py), a matching engine fills it against the best
-- quote (app/matching), and a settlement computes fees (app/services/fee_calculator.py), releases
-- margin (app/services/margin_release_calculator.py) and realizes a profit
-- (app/services/realized_pnl_calculator.py, app/services/pnl_calculator.py). Valuations move the
-- account through its risk states (app/services/account_risk_state_service.py), which may bar new
-- opening orders. The development models these rules; each function has the name of the method that
-- it translates, and each file says at its top which code it is about.
--
-- Prelude         the library names that are shared, Boolean tests, integers and lists.
-- Errors, Enums   app/common/exceptions.py and app/enums. A pure call that may raise returns a
--                 Result, with the error code of the exception.
-- Money           Decimal values and quantize_money (app/common/decimal_utils.py).
-- Fees            FeeCalculator: Snapshot is calculate and calculate_from_snapshot, Stock is
--                 calculate_stock_components, Buckets is calculate_bucket_allocations.
-- Matching        Vn is VnMatchingEngine.match, CashSecurity is CashSecurityMatchingStrategy.match,
--                 Registry is MatchingStrategyRegistry.
-- Positions       CloseAllocator is PositionCloseAllocator.allocate, MarginRelease is
--                 MarginReleaseCalculator.calculate and the sharing of a frozen commission, Pnl is
--                 the two calculators of the profit of a close and of an open position.
-- Risk            State is AccountRiskStateService.
-- Orders          Account is the row that the order services change, Freeze is OrderFreezeService,
--                 Rows holds the other rows that a cancellation locks, Allocations is its work on
--                 the lots and the frozen allocations of a closing order, and Cancellation is
--                 OrderCancellationService (app/services/order_cancellation_service.py).
--
-- Settlement      CloseTradeSettlementHandler (app/services/close_trade_settlement_handler.py) and the
--                 calculator that it calls. Rows are the rows that it locks, Tables is what holds of
--                 rows found by an identifier. Validation is _validate_before_mutation, Consumption
--                 takes the fill from the frozen allocations and the lots, Funds is the update of the
--                 account and of the order, Close/Position that of the position, and Close composes
--                 them as apply does. Open is a fill of an opening order, by the branch for
--                 futures (app/services/trade_settlement_service.py) or by
--                 OptionTradeSettlementStrategy
--                 (app/services/option_trade_settlement_strategy.py), and Trade is
--                 TradeSettlementService.settle, the transaction around both. Valuation is AccountValuationCalculator
--                 (app/services/account_valuation_calculator.py).
-- OrderPrices     OrderPriceResolver and validate_price_tick (app/services/order_price_resolver.py,
--                 app/services/price_tick_validation.py).
-- CashSecurities  Position is CashSecurityPositionService
--                 (app/services/cash_security_position_service.py), and Funds is CashSecurityFundsService
--                 (app/services/cash_security_funds_service.py).
-- Outbox          The claims and marks of OutboxRepository (app/repositories/outbox_repository.py) and
--                 a round of OutboxPublisherWorker (app/workers/outbox_publisher_worker.py). Workers
--                 are the transactions of concurrent workers in any order, with what each session
--                 has read and the columns that its commit updates.
--
-- Conventions. A Decimal is an exact signed coefficient with a number of decimal places; the context
-- precision of 28 digits, which amounts of the columns do not reach, is not modelled. An amount of
-- money (a NUMERIC(24, 6) column or a result of quantize_money) is an integer count of 0.000001, so
-- quantize_money of a sum or a difference of such amounts is the sum or the difference. A text that
-- is only compared is a number, and a text that names no member of an enumeration is `none`. The
-- arguments are typed, so the isinstance tests have no counterpart. Trading days are numbers, and
-- volumes are integers. A method that changes an account is a function from the account to a result
-- and the account that it leaves: what was written before an exception stays written, since the
-- object is changed in place and the transaction of the caller rolls it back. A cancellation holds
-- its own transaction, so a call that raises leaves the rows as they were; the locking queries, with
-- the access scope of the caller, are what fills the rows. Every loop is a
-- recursion on a list, and there is no fuel. A quotient that is quantized is exact and rounded once.
-- A settlement of a match meets the answer of the margin check of option orders
-- (app/services/option_order_margin_adjustment_service.py), which is a function given to it, and the
-- outcome of the writes, which is stored, a conflict of a unique constraint or another failure.
-- The publisher of the outbox (Redis) and the market snapshot service are parameters: what they answer.
-- Times are numbers.
--
-- Not modelled: the database, Redis, the workers, the websocket and HTTP layers and authentication,
-- which are input and output around these rules, and the daily settlement, the corporate actions and
-- the valuation services that load rows and call them. The database is taken to keep nothing of a
-- transaction that is rolled back, and the check of an option order's margin
-- (app/services/option_order_margin_adjustment_service.py) is an argument of the settlement.
pub mod Prelude
pub mod Errors
pub mod Enums
pub mod Money
pub mod Fees
pub mod Matching
pub mod Positions
pub mod Risk
pub mod Orders
pub mod Settlement
pub mod OrderPrices
pub mod Outbox
pub mod CashSecurities
