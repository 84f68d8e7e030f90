-- ===== src/Orders/Account.antt =====
-- The account columns that the order services read and write (app/models/account.py), and a call that
-- changes an account and may raise: what was written before the exception stays written, since the
-- object is changed in place and only the caller's transaction rolls it back.
use sim_trade.Prelude.{◌≡◌, ap, Bool, Option, if◌then◌else◌}
use sim_trade.Errors.{ErrorCode, Result, ok, err}
use sim_trade.Enums.{AccountStatus}
use sim_trade.Risk.State.{RiskState}
use sim_trade.Money.{Money}

pub record Account : Type 0 where
  pub status : Option AccountStatus
  pub risk_state : RiskState
  pub available_cash : Money
  pub risk_available_cash : Money
  pub frozen_cash : Money
  pub frozen_margin : Money
  pub frozen_commission : Money
  pub option_used_margin : Money
  pub option_realtime_required_margin : Money
  pub long_option_market_value : Money
  pub short_option_market_value : Money

abbrev pub Action : Type 0 → Type 0
Action A = Account → Result A × Account

abbrev pub modify : (Account → Account) → Action (Unit {0})
modify change account = (ok tt, change account)

abbrev pub gets : {A : Type 0} → (Account → A) → Action A
gets column account = (ok (column account), account)

abbrev pub raise_if : Bool → ErrorCode → Action (Unit {0})
raise_if test code account = (if test then err code else ok tt, account)

infixl 5 ◌>>=◌ ◌>>◌
abbrev pub ◌>>=◌ : {A B : Type 0} → Action A → (A → Action B) → Action B
◌>>=◌ call next account =
    let (r, after) = call account in elim r [ err code ↦ (err code, after) | ok x ↦ next x after ]

abbrev pub ◌>>◌ : {A B : Type 0} → Action A → Action B → Action B
◌>>◌ call next = ◌>>=◌ call (λ _. next)

-- After a call that has returned the next one runs on the account that it left.
pub >>-ok : (m k : Action (Unit {0})) (a b : Account) → m a ≡ (ok tt, b) → (m >> k) a ≡ k b
>>-ok m k a b e = rw (e, ◌>>=◌) (ap (λ (r : Result (Unit {0}) × Account). k r.1) e)
