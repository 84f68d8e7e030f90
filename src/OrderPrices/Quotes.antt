-- ===== src/OrderPrices/Quotes.antt =====
-- What stands behind a price that the resolver takes from a quote.
use sim_trade.Prelude.{
  ℕ, ◌≡◌, refl, Bool, true, false, not, ◌&&◌, ◌||◌, Option, none, some, ◌==◌, arith, if◌then◌else◌,
}
use sim_trade.Prelude.Int.{ℤ, pos, ◌+ℤ◌, ◌<ℤ◌, ltb_ℤ, leb_ℤ}
use sim_trade.Errors.{
  ◌>>=◌, ok, Ensures, ok-Ensures, >>=-Ensures, >>-Ensures, raise_if-eq-ok, raise_if, ErrorCode,
}
use sim_trade.Enums.{OrderDirection, buy, sell, OrderType, limit, counterparty, last, market}
use sim_trade.Money.{Decimal, is_nonpositive}
use sim_trade.OrderPrices.{
  round_to_tick, slipped, is_buy, market_protection, Tick, MarketEvent, OrderCreateRequest,
  ResolvedOrderPrice, check_tick, is_bad_price, given, priced, opposite_price, opposite_volume,
  takes_opposite, resolve_from, resolve, is_limit, is_crossed, is_crossed,
}
use sim_trade.OrderPrices.Sources.{IsSourced, protects, priced-IsFound, IsOffered, offered}

-- The columns of a tick that passed the checks.
record IsChecked (trading_day : ℕ) (t : Tick) : Type 0 where
  same_day : t.trading_day ≡ trading_day
  bid : is_bad_price t.bid_price_1 ≡ false
  ask : is_bad_price t.ask_price_1 ≡ false
  last_traded : is_bad_price t.last_price ≡ false

or3-false : (a b c : Bool) → (a || b || c) ≡ false → (a ≡ false) × (b ≡ false) × (c ≡ false)
or3-false a b c h = ground arith

check_tick-IsChecked :
    (now : ℤ) (trading_day : ℕ) (t : Tick)
    → Ensures (λ (u : Unit {0}). IsChecked trading_day t) (check_tick now trading_day t)
unfolding check_tick
check_tick-IsChecked now trading_day t = >>-Ensures (raise_if (not t.has_timezone) _) (λ _.
    >>-Ensures (raise_if (ltb_ℤ (now +ℤ pos 1000000) t.event_time) _) (λ _.
      >>-Ensures (raise_if (not (t.trading_day == trading_day)) _) (λ day.
        >>-Ensures
          (raise_if
            (is_bad_price t.bid_price_1 || is_bad_price t.ask_price_1 || is_bad_price t.last_price)
            _)
          (λ prices.
            >>-Ensures (raise_if (ltb_ℤ t.bid_volume_1 (pos 0) || ltb_ℤ t.ask_volume_1 (pos 0)) _)
              (λ _. >>-Ensures (raise_if (is_crossed t.bid_price_1 t.ask_price_1) _) (λ _.
                let (bid, ask, last_traded) = or3-false _ _ _ (raise_if-eq-ok _ _ prices) in
                let other_day = raise_if-eq-ok _ _ day in
                ok-Ensures (λ (u : Unit {0}). IsChecked trading_day t) tt
                  record {
                    same_day = ground arith;
                    bid = bid;
                    ask = ask;
                    last_traded = last_traded;
                  }))))))

abbrev Positive : Decimal × Bool → Type 0
Positive (price, flag) = pos 0 <ℤ price.coefficient

given_positive :
    (missing : ErrorCode) (o : Option Decimal)
    → is_bad_price o ≡ false
    → Ensures (λ (price : Decimal). pos 0 <ℤ price.coefficient) (given missing o)
given_positive missing none h = record { ensured = λ e. absurd cc }
given_positive missing (some price) h =
    ok-Ensures (λ (p : Decimal). pos 0 <ℤ p.coefficient) price (ground arith)

opposite_checked :
    (trading_day : ℕ) (t : Tick) (direction : OrderDirection)
    → IsChecked trading_day t
    → is_bad_price (opposite_price direction t) ≡ false
opposite_checked trading_day t buy h = h.ask
opposite_checked trading_day t sell h = h.bid

market_protection_positive :
    (rate price_tick : Decimal) (direction : OrderDirection) (opposite : Decimal)
    → Ensures
        (λ (p : Decimal). pos 0 <ℤ p.coefficient)
        (market_protection rate price_tick direction opposite)
unfolding market_protection
market_protection_positive rate price_tick direction opposite =
    >>=-Ensures (round_to_tick (slipped rate direction opposite) price_tick (is_buy direction))
      (λ p _. >>-Ensures (raise_if (is_nonpositive p) _) (λ tested.
        let positive = raise_if-eq-ok _ _ tested in
        ok-Ensures (λ (x : Decimal). pos 0 <ℤ x.coefficient) p (ground arith)))

-- A price taken from the book, and a protection.
from_book :
    (rate price_tick : Decimal) (missing : ErrorCode) (o : Option Decimal)
    → is_bad_price o ≡ false
    → Ensures Positive (given missing o >>= λ price. ok (price, false))
from_book rate price_tick missing o h =
    >>=-Ensures (given missing o)
      (λ price e. ok-Ensures Positive (price, false) ((given_positive missing o h).ensured e))

protected :
    (rate price_tick : Decimal) (direction : OrderDirection) (missing : ErrorCode)
    (o : Option Decimal)
    → Ensures Positive (
        given missing o >>= λ opposite.
        market_protection rate price_tick direction opposite >>= λ p. ok (p, true))
protected rate price_tick direction missing o = >>=-Ensures (given missing o) (λ opposite _.
    >>=-Ensures (market_protection rate price_tick direction opposite) (λ p e.
      ok-Ensures Positive (p, true)
        ((market_protection_positive rate price_tick direction opposite).ensured e)))

priced-Positive :
    (rate price_tick : Decimal) (kind : OrderType) (direction : OrderDirection) (trading_day : ℕ)
    → (t : Tick) → IsChecked trading_day t
    → Ensures Positive (priced rate price_tick kind direction t)
unfolding priced
priced-Positive rate price_tick counterparty direction trading_day t h =
    from_book rate price_tick _ _ (opposite_checked trading_day t direction h)
priced-Positive rate price_tick last direction trading_day t h =
    from_book rate price_tick _ _ h.last_traded
priced-Positive rate price_tick limit direction trading_day t h =
    protected rate price_tick direction _ _
priced-Positive rate price_tick market direction trading_day t h =
    protected rate price_tick direction _ _

-- What stands behind a price that was not given with the order.
pub record IsQuoted (rate price_tick : Decimal) (request : OrderCreateRequest) (trading_day : ℕ)
    (r : ResolvedOrderPrice) (event : MarketEvent) : Type 0 where
  pub positive : pos 0 <ℤ r.resolved_price.coefficient
  pub sourced :
      IsSourced rate price_tick request.order_type request.direction event.tick r.resolved_price
  pub protection :
      r.market_protection_price
      ≡ (if protects request.order_type then some r.resolved_price else none)
  pub no_limit : r.submitted_limit_price ≡ none
  pub same_day : event.tick.trading_day ≡ trading_day
  pub recorded : r.snapshot ≡ some event
  pub volume : IsOffered request.order_type request.direction event.tick

resolve_from-IsQuoted :
    (rate : Decimal) (request : OrderCreateRequest) (price_tick : Decimal) (trading_day : ℕ)
    (now : ℤ)
    → (event : MarketEvent)
    → Ensures
        (λ (r : ResolvedOrderPrice). IsQuoted rate price_tick request trading_day r event)
        (resolve_from rate request price_tick trading_day now event)
unfolding resolve_from
resolve_from-IsQuoted rate request price_tick trading_day now event =
    >>-Ensures (check_tick now trading_day event.tick) (λ checked.
      let h = (check_tick-IsChecked now trading_day event.tick).ensured checked in
      >>=-Ensures (priced rate price_tick request.order_type request.direction event.tick)
        (λ found e.
          >>-Ensures
            (raise_if
              (takes_opposite request.order_type
                && leb_ℤ (opposite_volume request.direction event.tick) (pos 0))
              _)
            (λ tested.
              let (sourced, flag) =
                (priced-IsFound rate price_tick request.order_type request.direction
                    event.tick).ensured
                  e in
              ok-Ensures
                (λ (r : ResolvedOrderPrice). IsQuoted rate price_tick request trading_day r event) _
                record {
                  positive =
                      (priced-Positive rate price_tick request.order_type request.direction
                          trading_day event.tick h).ensured
                        e;
                  sourced = sourced;
                  protection = rw flag refl;
                  no_limit = refl;
                  same_day = h.same_day;
                  recorded = refl;
                  volume =
                      offered request.order_type request.direction event.tick
                        (raise_if-eq-ok _ _ tested);
                })))

-- A price that `resolve` gives to an order that is not a limit order is positive and comes from the
-- event that was given, of the same trading day, which is recorded with it: the last price, or the ask for
-- a purchase and the bid for a sale, of a market order with the protection on top, which is recorded as
-- such. Where the order takes the price of the other side, that side has volume.
pub resolve-IsQuoted :
    (rate : Decimal) (request : OrderCreateRequest) (price_tick : Decimal) (trading_day : ℕ)
    (now : ℤ)
    → (event : Option MarketEvent) (r : ResolvedOrderPrice) → is_limit request.order_type ≡ false
    → resolve rate request price_tick trading_day now event ≡ ok r
    → (found : MarketEvent) × (event ≡ some found)
      × IsQuoted rate price_tick request trading_day r found
unfolding resolve
resolve-IsQuoted rate request price_tick trading_day now none r h e =
    let e' = rw h at e in absurd cc
resolve-IsQuoted rate request price_tick trading_day now (some event) r h e = (
  event,
  refl,
  (resolve_from-IsQuoted rate request price_tick trading_day now event).ensured (rw h at e),
)
