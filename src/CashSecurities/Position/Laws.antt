-- ===== src/CashSecurities/Position/Laws.antt =====
-- What a sale keeps true of a position.
use sim_trade.Prelude.{
  ℕ, zero, suc, ◌≡◌, ◌∙◌, refl, sym, ap, ◌⊎◌, inl, inr, false, ◌&&◌, ◌||◌, ◌==◌, Option, arith,
  Bool-cases,
}
use sim_trade.Prelude.Int.{ℤ, pos, negsuc, ◌+ℤ◌, ◌-ℤ◌, ◌≤ℤ◌, ◌<ℤ◌, ltb_ℤ, eqb_ℤ, int_laws, pos_part}
use sim_trade.Errors.{
  Ensures, ok-Ensures, >>-Ensures, >>=-Ensures, if-Ensures, ok, ok-injective, raise_if,
  raise_if-eq-ok,
}
use sim_trade.Enums.{InstrumentType}
use sim_trade.Money.{Money, divide, proportion}
use sim_trade.Money.Proportion.{proportion_nonneg, proportion-le}
use sim_trade.CashSecurities.Position.{
  CashPosition, settlement_days, ratio, from_yesterday, reduction, sold_known_bases,
  sold_legacy_bases, sold_bases, sold_volumes, sold_average, sale_cost, apply_sell,
}

-- The volumes and the known bases add up, and no volume, nor the cost or the basis of today, is
-- negative.
pub record IsBalanced (p : CashPosition) : Type 0 where
  pub total_is : p.total_volume ≡ p.today_volume +ℤ p.yesterday_volume
  pub available_is :
      p.available_volume ≡ p.total_volume -ℤ p.frozen_volume -ℤ p.settlement_locked_volume
  pub today : pos 0 ≤ℤ p.today_volume
  pub yesterday : pos 0 ≤ℤ p.yesterday_volume
  pub frozen : pos 0 ≤ℤ p.frozen_volume
  pub locked : pos 0 ≤ℤ p.settlement_locked_volume
  pub available : pos 0 ≤ℤ p.available_volume
  pub cost : pos 0 ≤ℤ p.position_cost
  pub today_base : pos 0 ≤ℤ p.today_pnl_base_cost
  pub bases :
      (p.daily_pnl_base_established ≡ false)
      ⊎ (p.daily_pnl_base_cost ≡ p.yesterday_pnl_base_cost +ℤ p.today_pnl_base_cost)

-- A quotient with a positive divisor is the proportion of `Money`.
pub ratio_positive :
    (amount part whole : ℤ)
    → pos 0 <ℤ whole
    → ratio amount part whole ≡ ok (proportion amount part whole)
unfolding ratio divide proportion
ratio_positive amount part (pos (suc n)) h =
    let nonzero : eqb_ℤ (pos (suc n)) (pos 0) ≡ false = ground arith in rw nonzero refl
ratio_positive amount part (pos zero) h = absurd (omega arith)
ratio_positive amount part (negsuc n) h = absurd (omega arith)

-- A part of an amount lies between nothing and the amount.
ratio_bounds :
    (amount part whole : ℤ) {r : Money}
    → pos 0 ≤ℤ amount
    → pos 0 ≤ℤ part
    → part ≤ℤ whole
    → pos 0 <ℤ whole
    → ratio amount part whole ≡ ok r
    → (pos 0 ≤ℤ r) × (r ≤ℤ amount)
ratio_bounds amount part whole {r} ha hp hw h0 e =
    let same : proportion amount part whole ≡ r =
      ok-injective (sym (ratio_positive amount part whole h0) ∙ e) in
    rw (sym same)
      (proportion_nonneg amount part whole ha hp h0, proportion-le amount part whole ha hp hw h0)

reduction_bounds :
    (base sold before : ℤ) {r : Money}
    → pos 0 ≤ℤ base
    → pos 0 ≤ℤ sold
    → sold ≤ℤ before
    → reduction base sold before ≡ ok r
    → (pos 0 ≤ℤ r) × (r ≤ℤ base)
unfolding reduction
reduction_bounds base sold before hb hs hl e = elim (Bool-cases (eqb_ℤ sold before)) [
  | inl all ↦ let same = ok-injective (rw all at e) in rw (sym same) (hb, omega arith)
  | inr some_left ↦
      let e' = rw some_left at e in
      elim (Bool-cases (eqb_ℤ sold (pos 0))) [
        | inl nothing ↦
            let same = ok-injective (rw nothing at e') in rw (sym same) (omega arith, hb)
        | inr part ↦ ratio_bounds base sold before hb hs hl (ground arith) (rw part at e')
      ]
]

sale_cost_bounds :
    (p : CashPosition) (volume : ℤ) {c : Money}
    → pos 0 ≤ℤ p.position_cost
    → pos 0 <ℤ volume
    → volume ≤ℤ p.total_volume
    → sale_cost p volume ≡ ok c
    → (pos 0 ≤ℤ c) × (c ≤ℤ p.position_cost) × (volume ≡ p.total_volume → c ≡ p.position_cost)
unfolding sale_cost
sale_cost_bounds p volume hc hv ht e = elim (Bool-cases (eqb_ℤ volume p.total_volume)) [
  | inl all ↦ let same = ok-injective (rw all at e) in rw (sym same) (hc, omega arith, λ h. refl)
  | inr part ↦
      let (low, high) =
        ratio_bounds p.position_cost volume p.total_volume hc (omega arith) ht (omega arith)
          (rw part at e) in
      (low, high, λ same. absurd (ground arith))
]

pub from_yesterday_bounds :
    (days : ℕ) (volume : ℤ) (p : CashPosition)
    → pos 0 ≤ℤ p.yesterday_volume
    → pos 0 ≤ℤ p.today_volume
    → pos 0 ≤ℤ volume
    → volume ≤ℤ p.today_volume +ℤ p.yesterday_volume
    → ((days == 1) && ltb_ℤ p.yesterday_volume volume) ≡ false
    → (pos 0 ≤ℤ from_yesterday days volume p)
      × (from_yesterday days volume p ≤ℤ p.yesterday_volume)
      × (from_yesterday days volume p ≤ℤ volume)
      × (volume -ℤ from_yesterday days volume p ≤ℤ p.today_volume)
unfolding from_yesterday
from_yesterday_bounds days volume p hy ht hv hs h = grind int_laws

reduction_leaves :
    (base sold before : ℤ) {r : Money}
    → pos 0 ≤ℤ base
    → pos 0 ≤ℤ sold
    → sold ≤ℤ before
    → reduction base sold before ≡ ok r
    → pos 0 ≤ℤ base -ℤ r
reduction_leaves base sold before hb hs hl e =
    let (low, high) = reduction_bounds base sold before hb hs hl e in omega int_laws

record AreRebased (p q : CashPosition) : Type 0 where
  only : q ≡ record p {
    today_pnl_base_cost = q.today_pnl_base_cost;
    yesterday_pnl_base_cost = q.yesterday_pnl_base_cost;
    daily_pnl_base_cost = q.daily_pnl_base_cost;
  }
  base : pos 0 ≤ℤ q.today_pnl_base_cost
  summed :
      (p.daily_pnl_base_established ≡ false)
      ⊎ (q.daily_pnl_base_cost ≡ q.yesterday_pnl_base_cost +ℤ q.today_pnl_base_cost)

-- A sale changes the bases of a position alone, and sums them anew.
sold_bases-AreRebased :
    (y t : ℤ) (p : CashPosition)
    → pos 0 ≤ℤ p.today_pnl_base_cost
    → pos 0 ≤ℤ t
    → t ≤ℤ p.today_volume
    → Ensures (AreRebased p) (sold_bases y t p)
unfolding sold_bases sold_known_bases sold_legacy_bases
sold_bases-AreRebased y t p hb h0 hl =
    if-Ensures
      (λ known. >>=-Ensures (reduction p.yesterday_pnl_base_cost y p.yesterday_volume) (λ a _.
        >>=-Ensures (reduction p.today_pnl_base_cost t p.today_volume) (λ b eb.
          ok-Ensures (AreRebased p) _ record {
            only = refl;
            base = reduction_leaves p.today_pnl_base_cost t p.today_volume hb h0 hl eb;
            summed = inr refl;
          })))
      (λ legacy. >>=-Ensures (reduction p.today_pnl_base_cost t p.today_volume) (λ b eb.
        ok-Ensures (AreRebased p) _ record {
          only = refl;
          base = reduction_leaves p.today_pnl_base_cost t p.today_volume hb h0 hl eb;
          summed = inl legacy;
        }))

-- What a sale that returns makes of a balanced position.
pub record IsSold (p q : CashPosition) (cost : Money) : Type 0 where
  pub balanced : IsBalanced q
  pub established : q.daily_pnl_base_established ≡ p.daily_pnl_base_established
  pub cost_nonneg : pos 0 ≤ℤ cost
  pub cost_sum : q.position_cost +ℤ cost ≡ p.position_cost
  pub sold_out : q.total_volume ≡ pos 0 → q.position_cost ≡ pos 0

abbrev pub Sold : CashPosition → CashPosition × Money → Type 0
Sold p (q, cost) = IsSold p q cost

sold_lem :
    (days : ℕ) (volume : ℤ) (cost average : Money) (p based : CashPosition)
    → IsBalanced p
    → pos 0 <ℤ volume
    → (ltb_ℤ p.frozen_volume volume || ltb_ℤ p.total_volume volume) ≡ false
    → ((days == 1) && ltb_ℤ p.yesterday_volume volume) ≡ false
    → sale_cost p volume ≡ ok cost
    → sold_bases (from_yesterday days volume p) (volume -ℤ from_yesterday days volume p) p
      ≡ ok based
    → IsSold p
        (record (sold_volumes volume (from_yesterday days volume p) based) {
          position_cost = p.position_cost -ℤ cost;
          average_open_price = average;
        })
        cost
unfolding sold_volumes
sold_lem days volume cost average p based h hv checked settled cost_is based_is =
    let enough : volume ≤ℤ p.total_volume = ground arith in
    let unfrozen : volume ≤ℤ p.frozen_volume = ground arith in
    let (y0, yy, yv, ty) =
      from_yesterday_bounds days volume p h.yesterday h.today (omega arith)
        (rw (sym h.total_is) enough) settled in
    let (c0, cp, all) = sale_cost_bounds p volume h.cost hv enough cost_is in
    let new : AreRebased p based =
      (sold_bases-AreRebased (from_yesterday days volume p) (volume -ℤ from_yesterday days volume p)
          p h.today_base (omega int_laws) ty).ensured
        based_is in
    let open_volume : pos 0 ≤ℤ p.total_volume -ℤ p.frozen_volume -ℤ p.settlement_locked_volume =
      rw (sym h.available_is) h.available in
    rw new.only record {
      balanced = record {
        total_is = rw h.total_is (omega int_laws);
        available_is = refl;
        today = omega int_laws;
        yesterday = omega int_laws;
        frozen = omega int_laws;
        locked = h.locked;
        available = omega int_laws;
        cost = omega int_laws;
        today_base = new.base;
        bases = new.summed;
      };
      established = refl;
      cost_nonneg = c0;
      cost_sum = omega int_laws;
      sold_out = λ empty.
          let none_left = ap pos_part empty in
          let same = all (omega int_laws) in rw same (omega int_laws);
    }

pub apply_sell-Sold :
    (p : CashPosition) (kind : Option InstrumentType) (volume : ℤ) (tplus : Option ℕ)
    → IsBalanced p
    → pos 0 <ℤ volume
    → Ensures (Sold p) (apply_sell p kind volume tplus)
unfolding apply_sell
apply_sell-Sold p kind volume tplus h hv =
    >>-Ensures (raise_if (ltb_ℤ p.frozen_volume volume || ltb_ℤ p.total_volume volume) _)
      (λ checked. >>=-Ensures (settlement_days kind tplus) (λ days _.
        >>-Ensures (raise_if ((days == 1) && ltb_ℤ p.yesterday_volume volume) _) (λ settled.
          >>=-Ensures (sale_cost p volume) (λ cost cost_is.
            >>=-Ensures
              (sold_bases (from_yesterday days volume p) (volume -ℤ from_yesterday days volume p) p)
              (λ based based_is.
                >>=-Ensures (sold_average (p.position_cost -ℤ cost) (p.total_volume -ℤ volume))
                  (λ average _. ok-Ensures (Sold p) _ (
                    sold_lem days volume cost average p based h hv (raise_if-eq-ok _ _ checked)
                      (raise_if-eq-ok _ _ settled) cost_is based_is)))))))
