-- ===== src/Orders/Cancellation/Steps.antt =====
-- What a cancellation that returns has passed: its guards, and the rows that it commits.
use sim_trade.Prelude.{
  ◌≡◌, refl, sym, ap, false, not, ◌&&◌, Option, none, some, ◌==◌, if◌then◌else◌,
}
use sim_trade.Errors.{ErrorCode, Result, ok, err, raise_if, >>=-eq-ok, raise_if-eq-ok, ok-injective}
use sim_trade.Orders.Account.{Account}
use sim_trade.Orders.Rows.{Order, Rows, Request}
use sim_trade.Orders.Cancellation.{
  Released, has_product_strategy, required, not_found, check_order, release_resources,
  cancelled_order, check_volume, committed, cancel_active, is_settled, cancel_rows, cancel_order,
  or_rollback,
}

eq_of_rollback :
    (rows : Rows) (result : Result (Order × Rows)) (o : Order) (rows' : Rows)
    → or_rollback rows result ≡ (ok o, rows')
    → result ≡ ok (o, rows')
eq_of_rollback rows (ok (o1, rows1)) o rows' h = cc
eq_of_rollback rows (err e) o rows' h = cc

pub eq_of_required :
    {A : Type 0} (code : ErrorCode) (x : Option A) (y : A) → required code x ≡ ok y → x ≡ some y
eq_of_required code none y h = cc
eq_of_required code (some x) y h = cc

-- The order and the account were there, and the guards before the status let the call through.
pub record IsAdmitted (r : Request) (rows : Rows) (o : Order) (a : Account) : Type 0 where
  pub order_found : rows.order ≡ some o
  pub account_found : rows.account ≡ some a
  pub gate : (not r.settlement_internal && not r.trading_is_open) ≡ false
  pub owner : (not (o.account_id == r.account_id)) ≡ false
  pub product : (not (has_product_strategy o.instrument_type)) ≡ false

abbrev pub by_status : Request → Rows → Order → Account → Result (Order × Rows)
by_status r rows o a = if is_settled r o then ok (o, rows) else cancel_active r o a rows

cancel_rows-IsAdmitted :
    (r : Request) (rows : Rows) (out : Order × Rows)
    → cancel_rows r rows ≡ ok out
    → (o : Order) × ((a : Account) × IsAdmitted r rows o a × (by_status r rows o a ≡ ok out))
unfolding cancel_rows
cancel_rows-IsAdmitted r rows out h =
    let (_, g, h1) =
      >>=-eq-ok (raise_if (not r.settlement_internal && not r.trading_is_open) _) _ h in
    let (o, eo, h2) = >>=-eq-ok (required (not_found r) rows.order) _ h1 in
    let (a, ea, h3) = >>=-eq-ok (required (not_found r) rows.account) _ h2 in
    let (_, w, h4) = >>=-eq-ok (raise_if (not (o.account_id == r.account_id)) _) _ h3 in
    let (_, p, h5) = >>=-eq-ok (raise_if (not (has_product_strategy o.instrument_type)) _) _ h4 in
    (
      o,
      (
        a,
        record {
          order_found = eq_of_required _ _ _ eo;
          account_found = eq_of_required _ _ _ ea;
          gate = raise_if-eq-ok _ _ g;
          owner = raise_if-eq-ok _ _ w;
          product = raise_if-eq-ok _ _ p;
        },
        h5,
      ),
    )

pub cancel_order-IsAdmitted :
    (r : Request) (rows rows' : Rows) (o' : Order)
    → cancel_order r rows ≡ (ok o', rows')
    → (o : Order) × ((a : Account) × IsAdmitted r rows o a
        × (by_status r rows o a ≡ ok (o', rows')))
unfolding cancel_order
cancel_order-IsAdmitted r rows rows' o' h =
    cancel_rows-IsAdmitted r rows (o', rows') (eq_of_rollback rows (cancel_rows r rows) o' rows' h)

-- The way back: an admitted call does what the status says.
pub cancel_order_admitted :
    (r : Request) (rows rows' : Rows) (o o' : Order) (a : Account)
    → IsAdmitted r rows o a
    → by_status r rows o a ≡ ok (o', rows')
    → cancel_order r rows ≡ (ok o', rows')
unfolding cancel_order cancel_rows
cancel_order_admitted r rows rows' o o' a ad h =
    simp (ad.gate, ad.order_found, ad.account_found, ad.owner, ad.product, h) refl

-- An active order that was cancelled.
pub record IsCancelling (r : Request) (o : Order) (a : Account) (rows : Rows) (o' : Order)
    (rows' : Rows) : Type 0 where
  pub released : Released
  pub resources : release_resources o a rows ≡ ok released
  pub checked : check_order r o ≡ ok tt
  pub volume : check_volume (cancelled_order r o) ≡ ok tt
  pub order_after : o' ≡ cancelled_order r o
  pub rows_after : rows' ≡ committed o (cancelled_order r o) released rows

pub cancel_active-IsCancelling :
    (r : Request) (o : Order) (a : Account) (rows : Rows) (o' : Order) (rows' : Rows)
    → cancel_active r o a rows ≡ ok (o', rows')
    → IsCancelling r o a rows o' rows'
unfolding cancel_active
cancel_active-IsCancelling r o a rows o' rows' h =
    let (_, c, h1) = >>=-eq-ok (check_order r o) _ h in
    let (released, er, h2) = >>=-eq-ok (release_resources o a rows) _ h1 in
    let (_, v, h3) = >>=-eq-ok (check_volume (cancelled_order r o)) _ h2 in
    record {
      released = released;
      resources = er;
      checked = c;
      volume = v;
      order_after = sym (ap (λ (p : Order × Rows). p.0) (ok-injective h3));
      rows_after = sym (ap (λ (p : Order × Rows). p.1) (ok-injective h3));
    }
