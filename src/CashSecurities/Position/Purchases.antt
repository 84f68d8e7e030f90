-- ===== src/CashSecurities/Position/Purchases.antt =====
-- What a purchase keeps true of a position.
use sim_trade.Prelude.{
  ℕ, ◌≡◌, refl, ◌⊎◌, inl, inr, Bool, true, false, ◌==◌, Option, Bool-cases, if◌then◌else◌,
}
use sim_trade.Prelude.Int.{ℤ, pos, ◌+ℤ◌, ◌≤ℤ◌, ◌<ℤ◌, int_laws}
use sim_trade.Errors.{Ensures, ok-Ensures, >>=-Ensures}
use sim_trade.Enums.{InstrumentType}
use sim_trade.Money.{Money}
use sim_trade.CashSecurities.Position.{
  CashPosition, settlement_days, ratio, bought, bought_bases, apply_buy,
}
use sim_trade.CashSecurities.Position.Laws.{IsBalanced}

bought-IsBalanced :
    (days : ℕ) (volume : ℤ) (p : CashPosition)
    → pos 0 <ℤ volume
    → IsBalanced p
    → IsBalanced (bought days volume p)
unfolding bought
bought-IsBalanced days volume p hv h =
    let total_is : p.total_volume +ℤ volume ≡ p.today_volume +ℤ volume +ℤ p.yesterday_volume =
      rw h.total_is (omega int_laws) in
    let today : pos 0 ≤ℤ p.today_volume +ℤ volume = let low = h.today in omega int_laws in
    elim (Bool-cases (days == 1)) [
      | inl later ↦ rw later record {
        total_is = total_is;
        available_is = rw h.available_is (omega int_laws);
        today = today;
        yesterday = h.yesterday;
        frozen = h.frozen;
        locked = let low = h.locked in omega int_laws;
        available = h.available;
        cost = h.cost;
        today_base = h.today_base;
        bases = h.bases;
      }
      | inr at_once ↦ rw at_once record {
        total_is = total_is;
        available_is = rw h.available_is (omega int_laws);
        today = today;
        yesterday = h.yesterday;
        frozen = h.frozen;
        locked = h.locked;
        available = let low = h.available in omega int_laws;
        cost = h.cost;
        today_base = h.today_base;
        bases = h.bases;
      }
    ]

-- New bases and a new cost, of which the volumes do not speak.
revalued-IsBalanced :
    (p : CashPosition) (yesterday_base today_base daily_base cost average : Money)
    → IsBalanced p
    → pos 0 ≤ℤ today_base
    → pos 0 ≤ℤ cost
    → (p.daily_pnl_base_established ≡ false) ⊎ (daily_base ≡ yesterday_base +ℤ today_base)
    → IsBalanced (record p {
      yesterday_pnl_base_cost = yesterday_base;
      today_pnl_base_cost = today_base;
      daily_pnl_base_cost = daily_base;
      position_cost = cost;
      average_open_price = average;
    })
revalued-IsBalanced p yesterday_base today_base daily_base cost average h ht hc hs = record {
  total_is = h.total_is;
  available_is = h.available_is;
  today = h.today;
  yesterday = h.yesterday;
  frozen = h.frozen;
  locked = h.locked;
  available = h.available;
  cost = hc;
  today_base = ht;
  bases = hs;
}

if-IsBalanced :
    (test : Bool) (p q : CashPosition)
    → (test ≡ true → IsBalanced p)
    → (test ≡ false → IsBalanced q)
    → IsBalanced (if test then p else q)
if-IsBalanced true p q h k = h refl
if-IsBalanced false p q h k = k refl

bought_bases-IsBalanced :
    (turnover : Money) (p : CashPosition)
    → pos 0 ≤ℤ turnover
    → IsBalanced p
    → IsBalanced (bought_bases turnover p)
unfolding bought_bases
bought_bases-IsBalanced turnover p ht h =
    let base : pos 0 ≤ℤ p.today_pnl_base_cost +ℤ turnover =
      let low = h.today_base in omega int_laws in
    if-IsBalanced p.daily_pnl_base_established _ _
      (λ known. revalued-IsBalanced p _ _ _ _ _ h base h.cost (inr refl))
      (λ legacy. revalued-IsBalanced p _ _ _ _ _ h base h.cost (inl legacy))

-- What a purchase that returns makes of a balanced position.
abbrev pub Bought : CashPosition → Money → CashPosition → Type 0
Bought p turnover q = IsBalanced q × (q.position_cost ≡ p.position_cost +ℤ turnover)

pub apply_buy-Bought :
    (p : CashPosition) (kind : Option InstrumentType) (volume : ℤ) (turnover : Money)
    → (tplus : Option ℕ) → IsBalanced p
    → pos 0 <ℤ volume
    → pos 0 ≤ℤ turnover
    → Ensures (Bought p turnover) (apply_buy p kind volume turnover tplus)
unfolding apply_buy
apply_buy-Bought p kind volume turnover tplus h hv ht =
    let cost : pos 0 ≤ℤ p.position_cost +ℤ turnover = let low = h.cost in omega int_laws in
    >>=-Ensures (settlement_days kind tplus) (λ days _.
      let q = bought_bases turnover (bought days volume p) in
      let hq = bought_bases-IsBalanced turnover _ ht (bought-IsBalanced days volume p hv h) in
      >>=-Ensures (ratio (p.position_cost +ℤ turnover) (pos 1) q.total_volume) (λ average _.
        ok-Ensures (Bought p turnover) _ (
          revalued-IsBalanced q q.yesterday_pnl_base_cost q.today_pnl_base_cost
              q.daily_pnl_base_cost (p.position_cost +ℤ turnover) average hq hq.today_base cost
              hq.bases,
          refl,
        )))
