-- ===== src/Orders/Freeze/Outcome.antt =====
-- What every operation of the freeze service keeps, and any sequence of them.
use sim_trade.Prelude.{◌≡◌, ◌∙◌, inl, inr, refl, List, [], ◌∷◌, Bool-cases}
use sim_trade.Prelude.Int.{pos, ◌+ℤ◌, ◌≤ℤ◌, int_laws}
use sim_trade.Money.{Money}
use sim_trade.Orders.Account.{Account, Action}
use sim_trade.Orders.Freeze.{
  has_default_risk_cash, repair_risk_cash, freeze_open, freeze_open_order, freeze_option,
  freeze_option_resources, freeze_stock, freeze_stock_buy, release_stock, release_stock_buy,
  freeze_commission, freeze_close_order_commission, release, release_open_order_frozen_resources,
  release_close_order_commission,
}
use sim_trade.Orders.Freeze.Guards.{
  freeze_open_order-cases, freeze_option_resources-cases, freeze_stock_buy-cases,
  release_stock_buy-cases, freeze_close_order_commission-cases,
  release_open_order_frozen_resources-cases,
}

-- The cash that an account holds, free or frozen.
pub total_funds : Account → Money
total_funds a = a.available_cash +ℤ a.frozen_cash +ℤ a.frozen_margin +ℤ a.frozen_commission

-- No free cash that is not there, and nothing frozen below zero.
pub record IsSolvent (a : Account) : Type 0 where
  pub cash : pos 0 ≤ℤ a.available_cash
  pub frozen_cash : pos 0 ≤ℤ a.frozen_cash
  pub frozen_margin : pos 0 ≤ℤ a.frozen_margin
  pub frozen_commission : pos 0 ≤ℤ a.frozen_commission

-- A step from one account to another that only moves funds.
pub record Moves (a b : Account) : Type 0 where
  pub total : total_funds b ≡ total_funds a
  pub solvent : IsSolvent a → IsSolvent b

Moves-same : (a b : Account) → b ≡ a → Moves a b
Moves-same a b e = rw e (record { total = refl; solvent = λ s. s })

repair-Moves : (a : Account) → Moves a (repair_risk_cash a)
unfolding repair_risk_cash total_funds
repair-Moves a = elim (Bool-cases (has_default_risk_cash a)) [
  | inl d ↦ simp d (record {
    total = refl;
    solvent = λ s. record {
      cash = s.cash;
      frozen_cash = s.frozen_cash;
      frozen_margin = s.frozen_margin;
      frozen_commission = s.frozen_commission;
    };
  })
  | inr d ↦ simp d (record { total = refl; solvent = λ s. s })
]

-- The calls of the service on an account that is there.
pub data FreezeCall : Type 0 where
  open_order stock_buy stock_release close_commission_release : Money → Money → FreezeCall
  option_resources order_release : Money → Money → Money → FreezeCall
  close_commission : Money → FreezeCall

pub perform : FreezeCall → Action (Unit {0})
perform (open_order margin commission) = freeze_open_order margin commission
perform (option_resources cash margin commission) = freeze_option_resources cash margin commission
perform (stock_buy cash commission) = freeze_stock_buy cash commission
perform (stock_release cash commission) = release_stock_buy cash commission
perform (close_commission commission) = freeze_close_order_commission commission
perform (close_commission_release commission cash) = release_close_order_commission commission cash
perform (order_release margin commission cash) =
    release_open_order_frozen_resources margin commission cash

freeze_open-Moves :
    (m c : Money) (a : Account)
    → pos 0 ≤ℤ m
    → pos 0 ≤ℤ c
    → m +ℤ c ≤ℤ a.available_cash
    → Moves a (freeze_open m c a)
unfolding total_funds
freeze_open-Moves m c a h0 h1 h2 = record {
  total = omega int_laws;
  solvent = λ s. record {
    cash = omega (int_laws, s.cash);
    frozen_cash = omega (int_laws, s.frozen_cash);
    frozen_margin = omega (int_laws, s.frozen_margin);
    frozen_commission = omega (int_laws, s.frozen_commission);
  };
}

freeze_option-Moves :
    (p m c : Money) (a : Account)
    → pos 0 ≤ℤ p
    → pos 0 ≤ℤ m
    → pos 0 ≤ℤ c
    → p +ℤ m +ℤ c ≤ℤ a.available_cash
    → Moves a (freeze_option p m c a)
unfolding total_funds
freeze_option-Moves p m c a h0 h1 h2 h3 = record {
  total = omega int_laws;
  solvent = λ s. record {
    cash = omega (int_laws, s.cash);
    frozen_cash = omega (int_laws, s.frozen_cash);
    frozen_margin = omega (int_laws, s.frozen_margin);
    frozen_commission = omega (int_laws, s.frozen_commission);
  };
}

freeze_stock-Moves :
    (p c : Money) (a : Account)
    → pos 0 ≤ℤ p
    → pos 0 ≤ℤ c
    → p +ℤ c ≤ℤ a.available_cash
    → Moves a (freeze_stock p c a)
unfolding total_funds
freeze_stock-Moves p c a h0 h1 h2 = record {
  total = omega int_laws;
  solvent = λ s. record {
    cash = omega (int_laws, s.cash);
    frozen_cash = omega (int_laws, s.frozen_cash);
    frozen_margin = omega (int_laws, s.frozen_margin);
    frozen_commission = omega (int_laws, s.frozen_commission);
  };
}

release_stock-Moves :
    (p c : Money) (a : Account)
    → pos 0 ≤ℤ p
    → pos 0 ≤ℤ c
    → p ≤ℤ a.frozen_cash
    → c ≤ℤ a.frozen_commission
    → Moves a (release_stock p c a)
unfolding total_funds
release_stock-Moves p c a h0 h1 h2 h3 = record {
  total = omega int_laws;
  solvent = λ s. record {
    cash = omega (int_laws, s.cash);
    frozen_cash = omega (int_laws, s.frozen_cash);
    frozen_margin = omega (int_laws, s.frozen_margin);
    frozen_commission = omega (int_laws, s.frozen_commission);
  };
}

freeze_commission-Moves :
    (c : Money) (a : Account) → pos 0 ≤ℤ c → c ≤ℤ a.available_cash → Moves a (freeze_commission c a)
unfolding total_funds
freeze_commission-Moves c a h0 h1 = record {
  total = omega int_laws;
  solvent = λ s. record {
    cash = omega (int_laws, s.cash);
    frozen_cash = omega (int_laws, s.frozen_cash);
    frozen_margin = omega (int_laws, s.frozen_margin);
    frozen_commission = omega (int_laws, s.frozen_commission);
  };
}

pub release-Moves :
    (m c p : Money) (a : Account)
    → pos 0 ≤ℤ m
    → pos 0 ≤ℤ c
    → pos 0 ≤ℤ p
    → m ≤ℤ a.frozen_margin
    → c ≤ℤ a.frozen_commission
    → p ≤ℤ a.frozen_cash
    → Moves a (release m c p a)
unfolding total_funds
release-Moves m c p a h0 h1 h2 h3 h4 h5 = record {
  total = omega int_laws;
  solvent = λ s. record {
    cash = omega (int_laws, s.cash);
    frozen_cash = omega (int_laws, s.frozen_cash);
    frozen_margin = omega (int_laws, s.frozen_margin);
    frozen_commission = omega (int_laws, s.frozen_commission);
  };
}

Moves-trans : (a b c : Account) → Moves a b → Moves b c → Moves a c
Moves-trans a b c f g = record { total = g.total ∙ f.total; solvent = λ s. g.solvent (f.solvent s) }

release_order-Moves :
    (m c p : Money) (a : Account) → Moves a (release_open_order_frozen_resources m c p a).1
release_order-Moves m c p a = elim (release_open_order_frozen_resources-cases m c p a) [
  | inl (_, same) ↦ Moves-same a _ same
  | inr (hm, hc, hp, bm, bc, bp, e) ↦ rw e (release-Moves m c p a hm hc hp bm bc bp)
]

release_close-Moves : (c p : Money) (a : Account) → Moves a (release_close_order_commission c p a).1
unfolding release_close_order_commission
release_close-Moves c p a = release_order-Moves (pos 0) c p a

-- One call moves funds between free and frozen cash, or leaves them where they are.
perform-Moves : (call : FreezeCall) (a : Account) → Moves a (perform call a).1
unfolding perform
perform-Moves (open_order m c) a = elim (freeze_open_order-cases m c a) [
  | inl (_, inl same) ↦ Moves-same a _ same
  | inl (_, inr repaired) ↦ rw repaired (repair-Moves a)
  | inr (_, hm, hc, enough, _, e) ↦ rw e (
      Moves-trans a (repair_risk_cash a) _ (repair-Moves a)
        (freeze_open-Moves m c (repair_risk_cash a) hm hc enough))
]
perform-Moves (option_resources p m c) a = elim (freeze_option_resources-cases p m c a) [
  | inl (_, same) ↦ Moves-same a _ same
  | inr (_, hp, hm, hc, enough, _, e) ↦ rw e (freeze_option-Moves p m c a hp hm hc enough)
]
perform-Moves (stock_buy p c) a = elim (freeze_stock_buy-cases p c a) [
  | inl (_, same) ↦ Moves-same a _ same
  | inr (_, hp, hc, enough, e) ↦ rw e (freeze_stock-Moves p c a hp hc enough)
]
perform-Moves (stock_release p c) a = elim (release_stock_buy-cases p c a) [
  | inl (_, same) ↦ Moves-same a _ same
  | inr (hp, hc, bp, bc, e) ↦ rw e (release_stock-Moves p c a hp hc bp bc)
]
perform-Moves (close_commission c) a = elim (freeze_close_order_commission-cases c a) [
  | inl (_, same) ↦ Moves-same a _ same
  | inr (_, hc, enough, e) ↦ rw e (freeze_commission-Moves c a hc enough)
]
perform-Moves (close_commission_release c p) a = release_close-Moves c p a
perform-Moves (order_release m c p) a = release_order-Moves m c p a

-- The account after a sequence of calls, each of which may raise.
pub perform_all : List FreezeCall → Account → Account
perform_all [] a = a
perform_all (call ∷ rest) a = perform_all rest (perform call a).1

perform_all-Moves : (calls : List FreezeCall) (a : Account) → Moves a (perform_all calls a)
unfolding perform_all
perform_all-Moves [] a = Moves-same a a refl
perform_all-Moves (call ∷ rest) a =
    Moves-trans a (perform call a).1 _ (perform-Moves call a)
      (perform_all-Moves rest (perform call a).1)

-- Whatever calls are made on whatever account, and whether they return or raise, free and frozen cash
-- add up to what they were.
pub perform_all_conserves :
    (calls : List FreezeCall) (a : Account) → total_funds (perform_all calls a) ≡ total_funds a
perform_all_conserves calls a = (perform_all-Moves calls a).total

-- Where neither the available cash nor a frozen fund of an account is negative, none of them is after
-- any calls, whether they return or raise.
pub perform_all-IsSolvent :
    (calls : List FreezeCall) (a : Account) → IsSolvent a → IsSolvent (perform_all calls a)
perform_all-IsSolvent calls a s = (perform_all-Moves calls a).solvent s
