-- ===== src/Orders/Cancellation/Resources.antt =====
-- The funds that a cancellation gives back to the account.
use sim_trade.Prelude.{◌≡◌, ◌∙◌, refl, sym, ap, true, false, some, inl, inr}
use sim_trade.Prelude.Int.{pos}
use sim_trade.Errors.{Result, ok, err, >>=-eq-ok, ok-injective}
use sim_trade.Money.{Money}
use sim_trade.Orders.Account.{Account}
use sim_trade.Orders.Freeze.{release, release_open_order_frozen_resources}
use sim_trade.Orders.Freeze.Guards.{
  release_open_order_frozen_resources-cases, release_close-release_open,
}
use sim_trade.Orders.Freeze.Outcome.{total_funds, Moves, release-Moves}
use sim_trade.Orders.Rows.{Order, Position, Rows, Request}
use sim_trade.Orders.Cancellation.{
  Released, on_account, is_open, is_cancellable, release_funds, release_resources, check_order,
  cancelled_order, release_open, release_close, release_position, cancel_order,
}
use sim_trade.Orders.Cancellation.Laws.{
  cancel_order-IsCancelling, check_frozen-facts, checked_frozen, account_after,
}

eq_of_on_account :
    (out : Result (Unit {0}) × Account) (b : Account) → on_account out ≡ ok b → out ≡ (ok tt, b)
eq_of_on_account (ok u, a) b h = cc
eq_of_on_account (err e, a) b h = cc

-- A release that goes through moves the funds from frozen to free.
record IsGivenBack (m c p : Money) (a b : Account) : Type 0 where
  is_release : b ≡ release m c p a
  moves : Moves a b

given_back :
    (m c p : Money) (a b : Account)
    → release_open_order_frozen_resources m c p a ≡ (ok tt, b)
    → IsGivenBack m c p a b
given_back m c p a b h = elim (release_open_order_frozen_resources-cases m c p a) [
  | inl (raised, _) ↦ absurd (raised (ap (λ (out : Result (Unit {0}) × Account). out.0) h))
  | inr (hm, hc, hp, bm, bc, bp, e) ↦
      let same : b ≡ release m c p a =
        ap (λ (out : Result (Unit {0}) × Account). out.1) (sym h ∙ e) in
      record { is_release = same; moves = rw same (release-Moves m c p a hm hc hp bm bc bp) }
]

funds_of_open :
    (o : Order) (a b : Account)
    → is_open o.offset_flag ≡ true
    → release_funds o a ≡ ok b
    → IsGivenBack o.frozen_margin o.frozen_commission o.frozen_cash a b
unfolding release_funds
funds_of_open o a b opening h =
    let h' = rw opening at h in
    given_back o.frozen_margin o.frozen_commission o.frozen_cash a b (eq_of_on_account _ b h')

funds_of_close :
    (o : Order) (a b : Account)
    → is_open o.offset_flag ≡ false
    → o.frozen_margin ≡ pos 0
    → release_funds o a ≡ ok b
    → IsGivenBack o.frozen_margin o.frozen_commission o.frozen_cash a b
unfolding release_funds
funds_of_close o a b closing no_margin h =
    let h' = rw closing at h in
    rw no_margin (
      given_back (pos 0) o.frozen_commission o.frozen_cash a b (
        sym (release_close-release_open o.frozen_commission o.frozen_cash a)
        ∙ eq_of_on_account _ b h'))

pub close_resources :
    (o : Order) (a : Account) (rows : Rows) (rel : Released)
    → release_close o a rows ≡ ok rel
    → (p' : Position) × (release_position o rows.position rows.lots rows.allocations
        ≡ ok (p', rel.lots, rel.allocations))
      × (rel.position ≡ some p')
      × (release_funds o a ≡ ok rel.account)
close_resources o a rows rel h =
    let ((p', lots', allocations'), ep, h1) =
      >>=-eq-ok (release_position o rows.position rows.lots rows.allocations) _ h in
    let (a', ea, h2) = >>=-eq-ok (release_funds o a) _ h1 in
    let e = ok-injective h2 in rw (← e) (p', ep, refl, ea)

open_funds :
    (o : Order) (a : Account) (rows : Rows) (rel : Released)
    → release_open o a rows ≡ ok rel
    → release_funds o a ≡ ok rel.account
open_funds o a rows rel h =
    let (a', ea, h1) = >>=-eq-ok (release_funds o a) _ h in
    ea ∙ ap (λ (x : Released). ok x.account) (ok-injective h1)

opening_branch :
    (o : Order) (a : Account) (rows : Rows)
    → is_open o.offset_flag ≡ true
    → release_resources o a rows ≡ release_open o a rows
unfolding release_resources
opening_branch o a rows h = rw h refl

pub closing_branch :
    (o : Order) (a : Account) (rows : Rows)
    → is_open o.offset_flag ≡ false
    → release_resources o a rows ≡ release_close o a rows
unfolding release_resources
closing_branch o a rows h = rw h refl

resources-funds :
    (r : Request) (o : Order) (a : Account) (rows : Rows) (rel : Released)
    → check_order r o ≡ ok tt
    → release_resources o a rows ≡ ok rel
    → IsGivenBack o.frozen_margin o.frozen_commission o.frozen_cash a rel.account
resources-funds r o a rows rel checked h =
    elim (check_frozen-facts o o.offset_flag (checked_frozen r o checked)) [
      | inl (opening, _) ↦
          funds_of_open o a rel.account opening
            (open_funds o a rows rel (sym (opening_branch o a rows opening) ∙ h))
      | inr (closing, no_margin) ↦
          let (_, _, _, funds) =
            close_resources o a rows rel (sym (closing_branch o a rows closing) ∙ h) in
          funds_of_close o a rel.account closing no_margin funds
    ]

-- A cancellation of an active order that returns gives the account back exactly what the order had
-- frozen, whatever the account holds: it is released of it, and its funds add up to what they were.
pub cancel_order_funds :
    (r : Request) (rows rows' : Rows) (o o' : Order) (a : Account)
    → rows.order ≡ some o
    → rows.account ≡ some a
    → is_cancellable o.status ≡ true
    → cancel_order r rows ≡ (ok o', rows')
    → (b : Account) × (rows'.account ≡ some b)
      × (b ≡ release o.frozen_margin o.frozen_commission o.frozen_cash a)
      × (total_funds b ≡ total_funds a)
cancel_order_funds r rows rows' o o' a eo ea active h =
    let c = cancel_order-IsCancelling r rows rows' o o' a eo ea active h in
    let g = resources-funds r o a rows c.released c.checked c.resources in
    (
      c.released.account,
      rw c.rows_after (account_after o (cancelled_order r o) c.released rows),
      g.is_release,
      g.moves.total,
    )
