-- ===== src/Orders/Cancellation/Laws.antt =====
-- A cancellation as a whole: what it leaves of order, account, position and lots, and that a second
-- one does nothing.
use sim_trade.Prelude.{
  ◌≡◌, ◌∙◌, refl, sym, ap, true, false, not, Option, none, some, if◌then◌else◌, Bool-cases, ◌⊎◌,
  inl, inr, arith,
}
use sim_trade.Prelude.Int.{ℤ, pos, pos_part, neg_part, ◌+ℤ◌, leb_ℤ, eqb_ℤ, eq_of_parts, int_laws}
use sim_trade.Errors.{ok, raise_if, >>=-eq-ok, ok-injective}
use sim_trade.Enums.{OffsetFlag, open_flag, cancelled, partially_cancelled}
use sim_trade.Orders.Account.{Account}
use sim_trade.Orders.Rows.{Order, Rows, Request}
use sim_trade.Orders.Cancellation.{
  Released, is_cancellable, is_open, cancelled_order, committed, check_order, check_frozen,
  check_volume, is_refused_type, is_settled, cancel_order, cancel_active,
}
use sim_trade.Orders.Cancellation.Steps.{
  IsAdmitted, by_status, cancel_order-IsAdmitted, cancel_order_admitted, IsCancelling,
  cancel_active-IsCancelling,
}

pub some-injective : {A : Type 0} {x y : A} → some x ≡ some y → x ≡ y
some-injective h = cc

settled_after : (r : Request) (o : Order) → is_settled r (cancelled_order r o) ≡ true
unfolding is_settled cancelled_order
settled_after r o = ground arith

order_after :
    (o o' : Order) (released : Released) (rows : Rows)
    → (committed o o' released rows).order ≡ some o'
unfolding committed
order_after o o' released rows = refl

pub account_after :
    (o o' : Order) (released : Released) (rows : Rows)
    → (committed o o' released rows).account ≡ some released.account
unfolding committed
account_after o o' released rows = refl

same_facts :
    (r : Request) (o : Order)
    → ((cancelled_order r o).account_id ≡ o.account_id)
      × ((cancelled_order r o).instrument_type ≡ o.instrument_type)
unfolding cancelled_order
same_facts r o = (refl, refl)

settled_by_status :
    (r : Request) (rows : Rows) (o : Order) (a : Account)
    → is_settled r o ≡ true
    → by_status r rows o a ≡ ok (o, rows)
settled_by_status r rows o a h = rw h refl

active_by_status :
    (r : Request) (rows : Rows) (o : Order) (a : Account)
    → is_settled r o ≡ false
    → by_status r rows o a ≡ cancel_active r o a rows
active_by_status r rows o a h = rw h refl

-- The order of the committed rows is admitted by the same request.
again-IsAdmitted :
    (r : Request) (rows rows' : Rows) (o o' : Order) (a : Account)
    → IsAdmitted r rows o a
    → (c : IsCancelling r o a rows o' rows') → IsAdmitted r rows' o' c.released.account
again-IsAdmitted r rows rows' o o' a ad c =
    let (same_account, same_type) = same_facts r o in
    let e : cancelled_order r o ≡ o' = sym c.order_after in
    rw (c.rows_after, ← e)
      (record {
        order_found = order_after o (cancelled_order r o) c.released rows;
        account_found = account_after o (cancelled_order r o) c.released rows;
        gate = ad.gate;
        owner = rw same_account ad.owner;
        product = rw same_type ad.product;
      })

-- A cancellation that has returned can be repeated: the same request gives the same order back, and
-- changes nothing more.
pub cancel_order_idempotent :
    (r : Request) (rows rows' : Rows) (o' : Order)
    → cancel_order r rows ≡ (ok o', rows')
    → cancel_order r rows' ≡ (ok o', rows')
cancel_order_idempotent r rows rows' o' h =
    let (o, (a, ad, body)) = cancel_order-IsAdmitted r rows rows' o' h in
    elim (Bool-cases (is_settled r o)) [
      | inl settled ↦
          let e = ok-injective (sym (settled_by_status r rows o a settled) ∙ body) in
          let er : rows ≡ rows' = ap (λ (p : Order × Rows). p.1) e in rw er at h
      | inr active ↦
          let c =
            cancel_active-IsCancelling r o a rows o' rows'
              (sym (active_by_status r rows o a active) ∙ body) in
          let settled : is_settled r o' ≡ true =
            ap (is_settled r) c.order_after ∙ settled_after r o in
          cancel_order_admitted r rows' rows' o' o' c.released.account
            (again-IsAdmitted r rows rows' o o' a ad c)
            (settled_by_status r rows' o' c.released.account settled)
    ]

active_of_cancellable :
    (r : Request) (o : Order) → is_cancellable o.status ≡ true → is_settled r o ≡ false
unfolding is_settled
active_of_cancellable r o h = ground arith

-- The cancellation of an active order, with the rows that it began with.
pub cancel_order-IsCancelling :
    (r : Request) (rows rows' : Rows) (o o' : Order) (a : Account)
    → rows.order ≡ some o
    → rows.account ≡ some a
    → is_cancellable o.status ≡ true
    → cancel_order r rows ≡ (ok o', rows')
    → IsCancelling r o a rows o' rows'
cancel_order-IsCancelling r rows rows' o o' a eo ea active h =
    let (o1, (a1, ad, body)) = cancel_order-IsAdmitted r rows rows' o' h in
    let same_order : o1 ≡ o = some-injective (sym ad.order_found ∙ eo) in
    let same_account : a1 ≡ a = some-injective (sym ad.account_found ∙ ea) in
    let body' = rw (same_order, same_account) at body in
    cancel_active-IsCancelling r o a rows o' rows'
      (sym (active_by_status r rows o a (active_of_cancellable r o active)) ∙ body')

-- A cancelled order: nothing left and nothing frozen, every volume traded or cancelled, and its
-- status says whether anything was traded.
pub record IsCancelled (o o' : Order) : Type 0 where
  pub nothing_left : o'.remaining_volume ≡ pos 0
  pub no_margin : o'.frozen_margin ≡ pos 0
  pub no_cash : o'.frozen_cash ≡ pos 0
  pub no_commission : o'.frozen_commission ≡ pos 0
  pub no_position : o'.frozen_position_volume ≡ pos 0
  pub traded : o'.traded_volume ≡ o.traded_volume
  pub volumes : o'.total_volume ≡ o'.traded_volume +ℤ o'.cancelled_volume
  pub status :
      o'.status ≡ some (if eqb_ℤ o.traded_volume (pos 0) then cancelled else partially_cancelled)

pub eq_of_eqb : (x y : ℤ) → eqb_ℤ x y ≡ true → x ≡ y
eq_of_eqb x y h = ground (arith, eq_of_parts x y)

-- What the check leaves open: an opening order without a position, or a closing order without a
-- margin.
pub check_frozen-facts :
    (o : Order) (flag : Option OffsetFlag)
    → check_frozen o flag ≡ ok tt
    → ((is_open flag ≡ true) × (o.frozen_position_volume ≡ pos 0))
      ⊎ ((is_open flag ≡ false) × (o.frozen_margin ≡ pos 0))
unfolding check_frozen is_open
check_frozen-facts o none h = cc
check_frozen-facts o (some open_flag) h =
    inl (refl, eq_of_eqb o.frozen_position_volume (pos 0) (ground arith))
check_frozen-facts o (some _) h = inr (refl, eq_of_eqb o.frozen_margin (pos 0) (ground arith))

pub checked_frozen :
    (r : Request) (o : Order) → check_order r o ≡ ok tt → check_frozen o o.offset_flag ≡ ok tt
unfolding check_order
checked_frozen r o h =
    let (_, _, h1) =
      >>=-eq-ok (raise_if (is_refused_type r.market_auto_cancel o.order_type) _) _ h in
    let (_, _, h2) = >>=-eq-ok (raise_if (not (is_cancellable o.status)) _) _ h1 in
    let (_, _, h3) = >>=-eq-ok (raise_if (leb_ℤ o.remaining_volume (pos 0)) _) _ h2 in h3

position_freed :
    (r : Request) (o : Order)
    → check_frozen o o.offset_flag ≡ ok tt
    → (cancelled_order r o).frozen_position_volume ≡ pos 0
unfolding cancelled_order
position_freed r o h = elim (check_frozen-facts o o.offset_flag h) [
  | inl (opening, free) ↦ rw opening free
  | inr (closing, _) ↦ rw closing refl
]

checked_volume :
    (o : Order)
    → check_volume o ≡ ok tt
    → o.total_volume ≡ o.traded_volume +ℤ o.remaining_volume +ℤ o.cancelled_volume
unfolding check_volume
checked_volume o h = eq_of_eqb _ _ (ground arith)

cancelled_order-IsCancelled :
    (r : Request) (o : Order)
    → check_volume (cancelled_order r o) ≡ ok tt
    → (cancelled_order r o).frozen_position_volume ≡ pos 0
    → IsCancelled o (cancelled_order r o)
unfolding cancelled_order
cancelled_order-IsCancelled r o h p =
    let v = checked_volume (cancelled_order r o) h in
    record {
      nothing_left = refl;
      no_margin = refl;
      no_cash = refl;
      no_commission = refl;
      no_position = p;
      traded = refl;
      volumes = eq_of_parts _ _ (omega (int_laws, ap pos_part v, ap neg_part v));
      status = refl;
    }

-- A cancellation of an active order that returns leaves nothing of the order open or frozen: its
-- volume was traded or is cancelled, and the status says whether any was traded.
pub cancel_order-IsCancelled :
    (r : Request) (rows rows' : Rows) (o o' : Order) (a : Account)
    → rows.order ≡ some o
    → rows.account ≡ some a
    → is_cancellable o.status ≡ true
    → cancel_order r rows ≡ (ok o', rows')
    → (rows'.order ≡ some o') × IsCancelled o o'
cancel_order-IsCancelled r rows rows' o o' a eo ea active h =
    let c = cancel_order-IsCancelling r rows rows' o o' a eo ea active h in
    let e : cancelled_order r o ≡ o' = sym c.order_after in
    rw (c.rows_after, ← e)
      (
        order_after o (cancelled_order r o) c.released rows,
        cancelled_order-IsCancelled r o c.volume
            (position_freed r o (checked_frozen r o c.checked)),
      )
