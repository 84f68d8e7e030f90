-- ===== src/CashSecurities/Position/Trades.antt =====
-- A position through any number of purchases and sales.
use sim_trade.Prelude.{
  ℕ, ◌≡◌, ◌∙◌, refl, sym, ap, inl, inr, false, ◌&&◌, ◌||◌, ◌==◌, Option, arith, List, [], ◌∷◌, All,
  Bool-cases,
}
use sim_trade.Prelude.Int.{ℤ, pos, ◌+ℤ◌, ◌-ℤ◌, ◌≤ℤ◌, ◌<ℤ◌, ltb_ℤ, eqb_ℤ, int_laws}
use sim_trade.Errors.{
  Result, ok, Ensures, ok-Ensures, >>=-Ensures, Returns, >>=-Returns, if-Returns, ◌>>=◌,
}
use sim_trade.Enums.{InstrumentType}
use sim_trade.Money.{Money}
use sim_trade.CashSecurities.Position.{
  CashPosition, settlement_days, ratio, apply_buy, from_yesterday, reduction, sold_known_bases,
  sold_legacy_bases, sold_bases, sold_average, sale_cost, apply_sell,
}
use sim_trade.CashSecurities.Position.Laws.{
  IsBalanced, apply_sell-Sold, ratio_positive, from_yesterday_bounds,
}
use sim_trade.CashSecurities.Position.Purchases.{apply_buy-Bought}

add_assoc : (a b c : ℤ) → a +ℤ b +ℤ c ≡ a +ℤ (b +ℤ c)
add_assoc a b c = omega int_laws

regroup : (a b c d t : ℤ) → a +ℤ c ≡ d +ℤ t → a +ℤ (b +ℤ c) ≡ d +ℤ b +ℤ t
regroup a b c d t h =
    let moved : a +ℤ c +ℤ b ≡ d +ℤ t +ℤ b = ap (λ (x : ℤ). x +ℤ b) h in
    let left : a +ℤ (b +ℤ c) ≡ a +ℤ c +ℤ b = omega int_laws in
    let right : d +ℤ t +ℤ b ≡ d +ℤ b +ℤ t = omega int_laws in left ∙ moved ∙ right

pub data Trade : Type 0 where
  buy : ℤ → Money → Trade
  sell : ℤ → Trade

-- A volume is positive, and a turnover is not negative.
abbrev pub IsValid : Trade → Type 0
IsValid (buy volume turnover) = (pos 0 <ℤ volume) × (pos 0 ≤ℤ turnover)
IsValid (sell volume) = pos 0 <ℤ volume

abbrev pub turnover_of : List Trade → Money
turnover_of [] = pos 0
turnover_of (buy volume turnover ∷ rest) = turnover +ℤ turnover_of rest
turnover_of (sell volume ∷ rest) = turnover_of rest

module _ (kind : Option InstrumentType) (tplus : Option ℕ) where
  -- The position after the trades, and the cost of all that was sold.
  abbrev pub trade_all : List Trade → CashPosition → Result (CashPosition × Money)
  trade_all [] p = ok (p, pos 0)
  trade_all (buy volume turnover ∷ rest) p =
      apply_buy p kind volume turnover tplus >>= λ q. trade_all rest q
  trade_all (sell volume ∷ rest) p =
      apply_sell p kind volume tplus >>= λ (sold : CashPosition × Money).
      trade_all rest sold.0 >>= λ (last : CashPosition × Money). ok (last.0, sold.1 +ℤ last.1)

  abbrev Kept : List Trade → CashPosition → CashPosition × Money → Type 0
  Kept ts p (q, cost) = IsBalanced q × (q.position_cost +ℤ cost ≡ p.position_cost +ℤ turnover_of ts)

  trade_all-Kept :
      (ts : List Trade) (p : CashPosition)
      → All IsValid ts
      → IsBalanced p
      → Ensures (Kept ts p) (trade_all ts p)
  trade_all-Kept [] p v h = ok-Ensures (Kept [] p) _ (h, refl)
  trade_all-Kept (buy volume turnover ∷ rest) p ((hv, ht), v) h =
      >>=-Ensures (apply_buy p kind volume turnover tplus) (λ q e.
        let (hq, paid) = (apply_buy-Bought p kind volume turnover tplus h hv ht).ensured e in
        record {
          ensured = λ er.
              let (hl, sum) = (trade_all-Kept rest q v hq).ensured er in
              (hl, sum ∙ ap (λ (c : Money). c +ℤ turnover_of rest) paid ∙ add_assoc _ _ _);
        })
  trade_all-Kept (sell volume ∷ rest) p (hv, v) h =
      >>=-Ensures (apply_sell p kind volume tplus) (λ sold e.
        let done = (apply_sell-Sold p kind volume tplus h hv).ensured e in
        >>=-Ensures (trade_all rest sold.0) (λ last er.
          let (hl, sum) = (trade_all-Kept rest sold.0 v done.balanced).ensured er in
          let before = done.cost_sum in
          ok-Ensures (Kept (sell volume ∷ rest) p) _
            (hl, regroup _ _ _ _ _ sum ∙ ap (λ (c : Money). c +ℤ turnover_of rest) before)))

-- Through any purchases and sales that return, of positive volumes and of turnovers that are not
-- negative, a balanced position stays balanced: its volumes and known bases add up, and no volume
-- is negative. The cost that is left together with the cost of all that was sold is the cost at the
-- start and the turnovers.
pub trade_all_lem :
    (kind : Option InstrumentType) (tplus : Option ℕ) (ts : List Trade) (p q : CashPosition)
    → (cost : Money) → All IsValid ts
    → IsBalanced p
    → trade_all kind tplus ts p ≡ ok (q, cost)
    → IsBalanced q × (q.position_cost +ℤ cost ≡ p.position_cost +ℤ turnover_of ts)
trade_all_lem kind tplus ts p q cost v h e = (trade_all-Kept kind tplus ts p v h).ensured e

-- A sale of a positive volume that returns gives a cost between nothing and the cost of a balanced
-- position, takes it off the cost, and leaves no cost when it sells the last of the volume.
pub apply_sell_cost :
    (p q : CashPosition) (kind : Option InstrumentType) (volume : ℤ) (tplus : Option ℕ)
    (cost : Money)
    → IsBalanced p
    → pos 0 <ℤ volume
    → apply_sell p kind volume tplus ≡ ok (q, cost)
    → (pos 0 ≤ℤ cost)
      × (cost ≤ℤ p.position_cost)
      × (q.position_cost +ℤ cost ≡ p.position_cost)
      × (q.total_volume ≡ pos 0 → q.position_cost ≡ pos 0)
apply_sell_cost p q kind volume tplus cost h hv e =
    let done = (apply_sell-Sold p kind volume tplus h hv).ensured e in
    let low = done.balanced.cost in
    (done.cost_nonneg, rw (sym done.cost_sum) (omega int_laws), done.cost_sum, done.sold_out)

ratio-Returns : (amount part whole : ℤ) → pos 0 <ℤ whole → Returns (ratio amount part whole)
ratio-Returns amount part whole h = (_, ratio_positive amount part whole h)

reduction-Returns :
    (base sold before : ℤ) → pos 0 ≤ℤ sold → sold ≤ℤ before → Returns (reduction base sold before)
unfolding reduction
reduction-Returns base sold before h k =
    if-Returns (eqb_ℤ sold before) _ _ (λ _. (_, refl))
      (λ _.
        if-Returns (eqb_ℤ sold (pos 0)) _ _ (λ _. (_, refl))
          (λ some_sold. ratio-Returns base sold before (ground arith)))

sold_bases-Returns :
    (y t : ℤ) (p : CashPosition)
    → pos 0 ≤ℤ y
    → y ≤ℤ p.yesterday_volume
    → pos 0 ≤ℤ t
    → t ≤ℤ p.today_volume
    → Returns (sold_bases y t p)
unfolding sold_bases sold_known_bases sold_legacy_bases
sold_bases-Returns y t p h0 h1 k0 k1 =
    let today = reduction-Returns p.today_pnl_base_cost t p.today_volume k0 k1 in
    let yesterday = reduction-Returns p.yesterday_pnl_base_cost y p.yesterday_volume h0 h1 in
    if-Returns p.daily_pnl_base_established _ _
      (λ _.
        >>=-Returns (reduction p.yesterday_pnl_base_cost y p.yesterday_volume) _ yesterday (λ a _.
          >>=-Returns (reduction p.today_pnl_base_cost t p.today_volume) _ today
            (λ b _. (_, refl))))
      (λ _.
        >>=-Returns (reduction p.today_pnl_base_cost t p.today_volume) _ today (λ b _. (_, refl)))

sold_average-Returns :
    (cost : Money) (total : ℤ) → pos 0 ≤ℤ total → Returns (sold_average cost total)
unfolding sold_average
sold_average-Returns cost total h =
    if-Returns (eqb_ℤ total (pos 0)) _ _ (λ _. (_, refl))
      (λ some_left. ratio-Returns cost (pos 1) total (ground arith))

sale_cost-Returns :
    (p : CashPosition) (volume : ℤ) → pos 0 <ℤ p.total_volume → Returns (sale_cost p volume)
unfolding sale_cost
sale_cost-Returns p volume h =
    if-Returns (eqb_ℤ volume p.total_volume) _ _ (λ _. (_, refl))
      (λ _. ratio-Returns p.position_cost volume p.total_volume h)

-- Under T+1 what is frozen is of yesterday.
settled_lem :
    (p : CashPosition) (volume : ℤ) (days : ℕ)
    → IsBalanced p
    → volume ≤ℤ p.frozen_volume
    → (days ≡ 1 → p.settlement_locked_volume ≡ p.today_volume)
    → (volume ≤ℤ p.total_volume) × (((days == 1) && ltb_ℤ p.yesterday_volume volume) ≡ false)
settled_lem p volume days h hf locked =
    let open_volume : pos 0 ≤ℤ p.total_volume -ℤ p.frozen_volume -ℤ p.settlement_locked_volume =
      rw (sym h.available_is) h.available in
    let lp = h.locked in
    let covered : volume ≤ℤ p.total_volume = omega int_laws in
    (
      covered,
      elim (Bool-cases (days == 1)) [
        | inl later ↦
            let free : pos 0
                ≤ℤ p.today_volume +ℤ p.yesterday_volume -ℤ p.frozen_volume -ℤ p.today_volume =
              rw (sym h.total_is, sym (locked (ground arith))) open_volume in
            let sellable : volume ≤ℤ p.yesterday_volume = omega int_laws in
            let fits : ltb_ℤ p.yesterday_volume volume ≡ false = ground arith in
            rw (later, fits) refl
        | inr at_once ↦ rw at_once refl
      ],
    )

-- A sale of a positive volume that is frozen for it, of a balanced position and a product with known
-- settlement days, returns if the days are 0, or if what is locked is what was bought today: neither
-- the error of a sale of today's volume nor a division by zero can come.
pub apply_sell-Returns :
    (p : CashPosition) (kind : Option InstrumentType) (volume : ℤ) (tplus : Option ℕ) (days : ℕ)
    → IsBalanced p
    → pos 0 <ℤ volume
    → volume ≤ℤ p.frozen_volume
    → settlement_days kind tplus ≡ ok days
    → (days ≡ 1 → p.settlement_locked_volume ≡ p.today_volume)
    → Returns (apply_sell p kind volume tplus)
unfolding apply_sell
apply_sell-Returns p kind volume tplus days h hv hf hd locked =
    let (covered, settled) = settled_lem p volume days h hf locked in
    let (y0, yy, yv, ty) =
      from_yesterday_bounds days volume p h.yesterday h.today (omega arith)
        (rw (sym h.total_is) covered) settled in
    let checked : (ltb_ℤ p.frozen_volume volume || ltb_ℤ p.total_volume volume) ≡ false =
      ground arith in
    rw (checked, hd, settled)
      (>>=-Returns (sale_cost p volume) _ (sale_cost-Returns p volume (omega arith)) (λ cost _.
        >>=-Returns
          (sold_bases (from_yesterday days volume p) (volume -ℤ from_yesterday days volume p) p) _
          (sold_bases-Returns _ _ p y0 yy (omega int_laws) ty)
          (λ based _.
            >>=-Returns (sold_average (p.position_cost -ℤ cost) (p.total_volume -ℤ volume)) _
              (sold_average-Returns (p.position_cost -ℤ cost) (p.total_volume -ℤ volume)
                (omega int_laws))
              (λ average _. (_, refl)))))
