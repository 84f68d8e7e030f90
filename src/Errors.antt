-- ===== src/Errors.antt =====
-- The exceptions of app/common/exceptions.py, by their `error_code`, the last four
-- the exceptions of Python itself, and calls that may raise one.
use sim_trade.Prelude.{◌≡◌, refl, sym, Bool, true, false, if◌then◌else◌}

pub data ErrorCode : Type 0 where
  invalid_fee_price invalid_fee_volume unsupported_offset_flag invalid_commission : ErrorCode
  invalid_contract_multiplier unsupported_commission_type : ErrorCode
  duplicate_stock_fee_component : ErrorCode
  invalid_close_volume insufficient_today_position insufficient_yesterday_position : ErrorCode
  insufficient_close_position invalid_close_direction position_margin_inconsistent : ErrorCode
  invalid_price_tick price_tick_mismatch : ErrorCode
  account_not_found account_not_tradable invalid_frozen_margin invalid_frozen_commission : ErrorCode
  insufficient_available_cash insufficient_risk_available_cash : ErrorCode
  invalid_option_frozen_resource invalid_stock_frozen_resource : ErrorCode
  invalid_stock_release_resource stock_cancel_frozen_resource_inconsistent : ErrorCode
  invalid_released_margin invalid_released_commission invalid_released_cash : ErrorCode
  cancel_frozen_resource_inconsistent : ErrorCode
  order_not_cancellable cancel_order_state_inconsistent cancel_position_inconsistent : ErrorCode
  cancel_order_volume_inconsistent : ErrorCode
  invalid_position_direction invalid_pnl_input : ErrorCode
  account_risk_open_blocked invalid_thresholds : ErrorCode
  daily_settlement_trading_closed resource_not_found order_not_found : ErrorCode
  order_account_mismatch product_strategy_not_registered : ErrorCode
  cash_security_position_instrument_invalid cash_security_sell_freeze_inconsistent : ErrorCode
  stock_t_plus_one_violation etf_t_plus_one_violation : ErrorCode
  close_allocation_inconsistent close_position_not_found : ErrorCode
  close_multiplier_snapshot_inconsistent close_resource_inconsistent : ErrorCode
  trade_position_allocation_inconsistent close_position_inconsistent : ErrorCode
  order_price_market_data_unavailable order_price_market_data_invalid : ErrorCode
  order_price_trading_day_mismatch market_protection_price_invalid : ErrorCode
  ask1_missing bid1_missing last_price_missing order_price_book_empty : ErrorCode
  settlement_account_not_found settlement_instrument_not_found : ErrorCode
  settlement_product_type_mismatch product_trade_settlement_not_implemented : ErrorCode
  settlement_position_not_found open_resource_inconsistent position_multiplier_inconsistent :
      ErrorCode
  option_risk_increase_not_allowed option_order_multiplier_invalid : ErrorCode
  option_open_resource_inconsistent option_position_rule_snapshot_inconsistent : ErrorCode
  option_position_multiplier_inconsistent : ErrorCode
  trade_settlement_conflict trade_settlement_failed trading_day_already_settled : ErrorCode
  invalid_cash_security_frozen_resource invalid_cash_security_release_resource : ErrorCode
  cash_security_cancel_frozen_resource_inconsistent : ErrorCode
  value_error key_error division_by_zero assertion_error : ErrorCode

-- What a pure call gives back: a value, or the exception that it raised.
pub data Result {ℓ} (A : Type ℓ) : Type ℓ where
  err : ErrorCode → Result A
  ok : A → Result A

-- `if test: raise ...`
abbrev pub raise_if : Bool → ErrorCode → Result (Unit {0})
raise_if test code = if test then err code else ok tt

pub raise_if-eq-ok :
    (test : Bool) (code : ErrorCode) {u : Unit {0}} → raise_if test code ≡ ok u → test ≡ false
raise_if-eq-ok false code h = refl
raise_if-eq-ok true code h = cc

module _ {ℓ κ} {B : Type κ} where
  infixl 5 ◌>>=◌
  abbrev pub ◌>>=◌ : {A : Type ℓ} → Result A → (A → Result B) → Result B
  err code >>= next = err code
  ok x >>= next = next x

  -- A chain returns only if its first call has returned a value.
  pub >>=-eq-ok :
      {A : Type ℓ} (call : Result A) (next : A → Result B) {y : B}
      → (call >>= next) ≡ ok y
      → (x : A) × (call ≡ ok x) × (next x ≡ ok y)
  >>=-eq-ok (err code) next h = cc
  >>=-eq-ok (ok x) next h = (x, refl, h)

infixl 5 ◌>>◌
abbrev pub ◌>>◌ {κ} : {B : Type κ} → Result (Unit {0}) → Result B → Result B
call >> after = call >>= λ _. after

pub ok-injective : {A : Type 0} {x y : A} → ok x ≡ ok y → x ≡ y
ok-injective h = cc

-- What holds of the value if the call returns one.
pub record Ensures {ℓ κ} {A : Type ℓ} (P : A → Type κ) (call : Result A) : Type (ℓ ⊔ κ) where
  pub ensured : {x : A} → call ≡ ok x → P x

pub ok-Ensures {κ} : {A : Type 0} (P : A → Type κ) (x : A) → P x → Ensures P (ok x)
ok-Ensures P x h = record { ensured = λ e. let same = ok-injective e in rw (sym same) h }

pub >>=-Ensures {κ} :
    {A B : Type 0} {P : B → Type κ} (call : Result A) {next : A → Result B}
    → ((x : A) → call ≡ ok x → Ensures P (next x))
    → Ensures P (call >>= next)
>>=-Ensures (ok x) h = h x refl
>>=-Ensures (err code) h = record { ensured = λ e. absurd cc }

pub >>-Ensures {κ} :
    {B : Type 0} {P : B → Type κ} (call : Result (Unit {0})) {after : Result B}
    → (call ≡ ok tt → Ensures P after)
    → Ensures P (call >> after)
>>-Ensures (ok tt) h = h refl
>>-Ensures (err code) h = record { ensured = λ e. absurd cc }

pub if-Ensures {κ} :
    {A : Type 0} {P : A → Type κ} {test : Bool} {x y : Result A}
    → (test ≡ true → Ensures P x)
    → (test ≡ false → Ensures P y)
    → Ensures P (if test then x else y)
if-Ensures {test = true} h k = h refl
if-Ensures {test = false} h k = k refl

-- The call returns a value.
abbrev pub Returns {ℓ} : {A : Type ℓ} → Result A → Type ℓ
Returns {A = A} call = (x : A) × (call ≡ ok x)

pub >>=-Returns :
    {A B : Type 0} (call : Result A) (next : A → Result B)
    → Returns call
    → ((x : A) → call ≡ ok x → Returns (next x))
    → Returns (call >>= next)
>>=-Returns (ok x) next r h = h x refl
>>=-Returns (err code) next r h = absurd (let (x, e) = r in cc)

pub if-Returns :
    {A : Type 0} (test : Bool) (x y : Result A)
    → (test ≡ true → Returns x)
    → (test ≡ false → Returns y)
    → Returns (if test then x else y)
if-Returns true x y h k = h refl
if-Returns false x y h k = k refl
