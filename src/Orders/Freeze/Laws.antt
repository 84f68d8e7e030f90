-- ===== src/Orders/Freeze/Laws.antt =====
-- When a freeze goes through, and that a release undoes it.
use sim_trade.Prelude.{◌≡◌, ◌↔◌, ◌∙◌, inl, inr, refl, ap, arith, true, Bool-cases}
use sim_trade.Prelude.Int.{pos, ◌+ℤ◌, ◌-ℤ◌, ◌≤ℤ◌, int_laws}
use sim_trade.Errors.{ok}
use sim_trade.Money.{Money}
use sim_trade.Orders.Account.{Account, ◌>>◌, >>-ok}
use sim_trade.Orders.Freeze.{
  is_tradable, has_default_risk_cash, repair_risk_cash, freeze_open, freeze_open_order,
  freeze_close_order_commission, release, release_open_order_frozen_resources,
}
use sim_trade.Orders.Freeze.Guards.{freeze_open_order-cases}

-- An opening order is frozen exactly for a tradable account and amounts that are not negative, which
-- its free cash and its (repaired) risk cash both cover together.
freeze_open_order_iff :
    (margin commission : Money) (a : Account)
    → ((freeze_open_order margin commission a).0 ≡ ok tt) ↔ (
        (is_tradable a.status ≡ true)
        × (pos 0 ≤ℤ margin)
        × (pos 0 ≤ℤ commission)
        × (margin +ℤ commission ≤ℤ (repair_risk_cash a).available_cash)
        × (margin +ℤ commission ≤ℤ (repair_risk_cash a).risk_available_cash))
unfolding freeze_open_order
freeze_open_order_iff margin commission a = (λ h. ground arith, λ h. ground arith)

-- A closing order is frozen exactly for a tradable account and a commission that is not negative
-- and that the free cash covers: the risk cash does not matter, so a deficit cannot bar a close.
pub freeze_close_order_commission_iff :
    (commission : Money) (a : Account)
    → ((freeze_close_order_commission commission a).0 ≡ ok tt)
      ↔ ((is_tradable a.status ≡ true) × (pos 0 ≤ℤ commission) × (commission ≤ℤ a.available_cash))
unfolding freeze_close_order_commission
freeze_close_order_commission_iff commission a = (λ h. ground arith, λ h. ground arith)

release-freeze : (m c : Money) (b : Account) → release m c (pos 0) (freeze_open m c b) ≡ b
release-freeze m c b =
    let cash : b.available_cash -ℤ (m +ℤ c) +ℤ (m +ℤ c +ℤ pos 0) ≡ b.available_cash =
      omega int_laws in
    let risk : b.risk_available_cash -ℤ (m +ℤ c) +ℤ (m +ℤ c +ℤ pos 0) ≡ b.risk_available_cash =
      omega int_laws in
    let margin : b.frozen_margin +ℤ m -ℤ m ≡ b.frozen_margin = omega int_laws in
    let fees : b.frozen_commission +ℤ c -ℤ c ≡ b.frozen_commission = omega int_laws in
    let premium : b.frozen_cash -ℤ pos 0 ≡ b.frozen_cash = omega int_laws in
    λ i. record b {
      available_cash = cash i;
      risk_available_cash = risk i;
      frozen_margin = margin i;
      frozen_commission = fees i;
      frozen_cash = premium i;
    }

repair-frozen :
    (a : Account)
    → ((repair_risk_cash a).frozen_margin ≡ a.frozen_margin)
      × ((repair_risk_cash a).frozen_commission ≡ a.frozen_commission)
      × ((repair_risk_cash a).frozen_cash ≡ a.frozen_cash)
unfolding repair_risk_cash
repair-frozen a = elim (Bool-cases (has_default_risk_cash a)) [
  | inl d ↦ simp d (refl, refl, refl)
  | inr d ↦ simp d (refl, refl, refl)
]

release_of :
    (m c p : Money) (a : Account)
    → pos 0 ≤ℤ m
    → pos 0 ≤ℤ c
    → pos 0 ≤ℤ p
    → m ≤ℤ a.frozen_margin
    → c ≤ℤ a.frozen_commission
    → p ≤ℤ a.frozen_cash
    → release_open_order_frozen_resources m c p a ≡ (ok tt, release m c p a)
unfolding release_open_order_frozen_resources
release_of m c p a hm hc hp bm bc bp = ground arith

frozen_of_ok :
    (m c : Money) (a : Account)
    → (freeze_open_order m c a).0 ≡ ok tt
    → freeze_open_order m c a ≡ (ok tt, freeze_open m c (repair_risk_cash a))
frozen_of_ok m c a h = elim (freeze_open_order-cases m c a) [
  | inl (raised, _) ↦ absurd (raised h)
  | inr (_, _, _, _, _, e) ↦ e
]

-- After an opening order was frozen on an account whose frozen margin, commission and cash were not
-- negative, releasing the same amounts goes through, and the account is the one that the freeze began
-- with, its risk cash repaired.
pub release-freeze_open :
    (margin commission : Money) (a : Account)
    → pos 0 ≤ℤ a.frozen_margin
    → pos 0 ≤ℤ a.frozen_commission
    → pos 0 ≤ℤ a.frozen_cash
    → (freeze_open_order margin commission a).0 ≡ ok tt
    → (freeze_open_order margin commission
          >> release_open_order_frozen_resources margin commission (pos 0))
        a
      ≡ (ok tt, repair_risk_cash a)
release-freeze_open margin commission a fm fc fp h =
    let b = repair_risk_cash a in
    let (m0, c0, p0) = repair-frozen a in
    let (_, hm, hc, _, _) = (freeze_open_order_iff margin commission a).0 h in
    let frozen : freeze_open_order margin commission a ≡ (ok tt, freeze_open margin commission b) =
      frozen_of_ok margin commission a h in
    >>-ok (freeze_open_order margin commission)
      (release_open_order_frozen_resources margin commission (pos 0)) a
      (freeze_open margin commission b) frozen
    ∙ (release_of margin commission (pos 0) (freeze_open margin commission b) hm hc (omega arith)
          (rw m0 (omega int_laws)) (rw c0 (omega int_laws)) (rw p0 fp)
        ∙ ap (λ (x : Account). (ok tt, x)) (release-freeze margin commission b))
