-- ===== src/CashSecurities/Funds/Laws.antt =====
-- What a purchase of a cash security has frozen can be released, and then nothing of it is left.
use sim_trade.Prelude.{◌≡◌, ◌∙◌, ap, arith}
use sim_trade.Prelude.Int.{pos, ◌+ℤ◌, ◌-ℤ◌, ◌≤ℤ◌, int_laws}
use sim_trade.Errors.{ok}
use sim_trade.Money.{Money, Decimal, quantize_money}
use sim_trade.Orders.Account.{Account, ◌>>◌, >>-ok}
use sim_trade.CashSecurities.Funds.{
  freeze_rounded, release_rounded, freeze_buy, release_buy, frozen_buy, released_buy,
}

back :
    (cash commission : Money) (a : Account)
    → released_buy cash commission (frozen_buy cash commission a) ≡ a
back cash commission a =
    let available : a.available_cash -ℤ (cash +ℤ commission) +ℤ cash +ℤ commission
        ≡ a.available_cash =
      omega int_laws in
    let held : a.frozen_cash +ℤ cash -ℤ cash ≡ a.frozen_cash = omega int_laws in
    let fees : a.frozen_commission +ℤ commission -ℤ commission ≡ a.frozen_commission =
      omega int_laws in
    λ i. record a { available_cash = available i; frozen_cash = held i; frozen_commission = fees i }

frozen_result :
    (cash commission : Money) (a : Account)
    → (freeze_rounded cash commission a).0 ≡ ok tt
    → (freeze_rounded cash commission a ≡ (ok tt, frozen_buy cash commission a))
      × (pos 0 ≤ℤ cash)
      × (pos 0 ≤ℤ commission)
unfolding freeze_rounded
frozen_result cash commission a h = (ground arith, ground arith, ground arith)

released_result :
    (cash commission : Money) (a : Account)
    → pos 0 ≤ℤ cash
    → pos 0 ≤ℤ commission
    → cash ≤ℤ a.frozen_cash
    → commission ≤ℤ a.frozen_commission
    → release_rounded cash commission a ≡ (ok tt, released_buy cash commission a)
unfolding release_rounded
released_result cash commission a c0 k0 c k = ground arith

rounded_trip :
    (cash commission : Money) (a : Account)
    → pos 0 ≤ℤ a.frozen_cash
    → pos 0 ≤ℤ a.frozen_commission
    → (freeze_rounded cash commission a).0 ≡ ok tt
    → (freeze_rounded cash commission >> release_rounded cash commission) a ≡ (ok tt, a)
rounded_trip cash commission a fc fk h =
    let (frozen, c0, k0) = frozen_result cash commission a h in
    >>-ok (freeze_rounded cash commission) (release_rounded cash commission) a
      (frozen_buy cash commission a) frozen
    ∙ released_result cash commission (frozen_buy cash commission a) c0 k0 (omega int_laws)
        (omega int_laws)
    ∙ ap (λ (b : Account). (ok tt, b)) (back cash commission a)

-- After the purchase of a cash security was frozen on an account with no negative frozen cash or
-- commission, releasing the same amounts, rounded to money or not, goes through and gives back the account
-- with which the freeze began.
pub release_buy-freeze_buy :
    (cash commission : Decimal) (a : Account)
    → pos 0 ≤ℤ a.frozen_cash
    → pos 0 ≤ℤ a.frozen_commission
    → (freeze_buy cash commission a).0 ≡ ok tt
    → (freeze_buy cash commission >> release_buy cash commission) a ≡ (ok tt, a)
unfolding freeze_buy release_buy
release_buy-freeze_buy cash commission a fc fk h =
    rounded_trip (quantize_money cash) (quantize_money commission) a fc fk h
