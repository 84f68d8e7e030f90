-- ===== src/OrderPrices/Sources.antt =====
-- Where the resolver takes a price from: the side of the book, the last price, or a protection.
use sim_trade.Prelude.{◌≡◌, refl, Bool, true, false, ◌&&◌, Option, none, some, arith}
use sim_trade.Prelude.Int.{pos, ◌<ℤ◌, leb_ℤ}
use sim_trade.Errors.{◌>>=◌, ok, Ensures, ok-Ensures, >>=-Ensures, ErrorCode}
use sim_trade.Enums.{OrderDirection, buy, sell, OrderType, limit, counterparty, last, market}
use sim_trade.Money.{Decimal}
use sim_trade.OrderPrices.{market_protection, Tick, given, priced, opposite_volume, takes_opposite}

-- Where a price comes from: the ask for a purchase and the bid for a sale, or the last price; the
-- protection of a market order is that of the same side.
abbrev pub IsSourced : Decimal → Decimal → OrderType → OrderDirection → Tick → Decimal → Type 0
IsSourced rate price_tick counterparty buy t price = t.ask_price_1 ≡ some price
IsSourced rate price_tick counterparty sell t price = t.bid_price_1 ≡ some price
IsSourced rate price_tick last direction t price = t.last_price ≡ some price
IsSourced rate price_tick _ buy t price =
    (ask : Decimal) × (t.ask_price_1 ≡ some ask)
    × (market_protection rate price_tick buy ask ≡ ok price)
IsSourced rate price_tick _ sell t price =
    (bid : Decimal) × (t.bid_price_1 ≡ some bid)
    × (market_protection rate price_tick sell bid ≡ ok price)

found_of_given :
    (missing : ErrorCode) (o : Option Decimal) (p : Decimal) → given missing o ≡ ok p → o ≡ some p
found_of_given missing none p h = absurd cc
found_of_given missing (some q) p h = cc

-- The kinds of order whose price is a protection.
abbrev pub protects : OrderType → Bool
protects counterparty = false
protects last = false
protects _ = true

-- What a price has for its kind of order: its source, and whether it is a protection.
abbrev pub IsFound : Decimal → Decimal → OrderType → OrderDirection → Tick → Decimal × Bool → Type 0
IsFound rate price_tick kind direction t (price, flag) =
    IsSourced rate price_tick kind direction t price × (flag ≡ protects kind)

module _ (Q : Decimal × Bool → Type 0) (missing : ErrorCode) (o : Option Decimal) where
  book-Ensures :
      ((p : Decimal) → o ≡ some p → Q (p, false))
      → Ensures Q (given missing o >>= λ price. ok (price, false))
  book-Ensures found =
      >>=-Ensures (given missing o)
        (λ p e. ok-Ensures Q (p, false) (found p (found_of_given missing o p e)))

  protection-Ensures :
      (rate price_tick : Decimal) (direction : OrderDirection)
      → ((opposite p : Decimal)
          → o ≡ some opposite
          → market_protection rate price_tick direction opposite ≡ ok p
          → Q (p, true))
      → Ensures Q (
          given missing o >>= λ opposite.
          market_protection rate price_tick direction opposite >>= λ p. ok (p, true))
  protection-Ensures rate price_tick direction found = >>=-Ensures (given missing o) (λ opposite e.
      >>=-Ensures (market_protection rate price_tick direction opposite) (λ p ep.
        ok-Ensures Q (p, true) (found opposite p (found_of_given missing o opposite e) ep)))

pub priced-IsFound :
    (rate price_tick : Decimal) (kind : OrderType) (direction : OrderDirection) (t : Tick)
    → Ensures (IsFound rate price_tick kind direction t) (priced rate price_tick kind direction t)
unfolding priced
priced-IsFound rate price_tick counterparty buy t = book-Ensures _ _ _ (λ p e. (e, refl))
priced-IsFound rate price_tick counterparty sell t = book-Ensures _ _ _ (λ p e. (e, refl))
priced-IsFound rate price_tick last direction t = book-Ensures _ _ _ (λ p e. (e, refl))
priced-IsFound rate price_tick limit buy t =
    protection-Ensures _ _ _ rate price_tick buy (λ q p e ep. ((q, e, ep), refl))
priced-IsFound rate price_tick limit sell t =
    protection-Ensures _ _ _ rate price_tick sell (λ q p e ep. ((q, e, ep), refl))
priced-IsFound rate price_tick market buy t =
    protection-Ensures _ _ _ rate price_tick buy (λ q p e ep. ((q, e, ep), refl))
priced-IsFound rate price_tick market sell t =
    protection-Ensures _ _ _ rate price_tick sell (λ q p e ep. ((q, e, ep), refl))

-- The volume on the side that the price is taken from.
abbrev pub IsOffered : OrderType → OrderDirection → Tick → Type 0
IsOffered last direction t = Unit
IsOffered limit direction t = Unit
IsOffered _ buy t = pos 0 <ℤ t.ask_volume_1
IsOffered _ sell t = pos 0 <ℤ t.bid_volume_1

pub offered :
    (kind : OrderType) (direction : OrderDirection) (t : Tick)
    → (takes_opposite kind && leb_ℤ (opposite_volume direction t) (pos 0)) ≡ false
    → IsOffered kind direction t
offered last direction t h = tt
offered limit direction t h = tt
offered counterparty buy t h = ground arith
offered counterparty sell t h = ground arith
offered market buy t h = ground arith
offered market sell t h = ground arith
