-- ===== src/Risk/State.antt =====
-- `AccountRiskStateService`: the risk states of an account and the thresholds with hysteresis.
pub mod Laws
mod Tests
use sim_trade.Prelude.{Bool, true, false, not, ◌&&◌, ◌||◌, List, [], ◌∷◌, if◌then◌else◌}
use sim_trade.Prelude.Int.{ℤ, pos, ltb_ℤ, leb_ℤ}
use sim_trade.Errors.{
  Result, ok, ◌>>=◌, ◌>>◌, raise_if, invalid_thresholds, account_risk_open_blocked,
}
use sim_trade.Money.{Decimal, lt_decimal, is_nonpositive}

-- `AccountRiskState` of app/enums/account_enums.py
pub data RiskState : Type 0 where
  normal warning margin_deficit liquidation_pending liquidating recovered : RiskState
  valuation_unavailable : RiskState

pub data RiskReason : Type 0 where
  no_valuation limit_still_exceeded equity_non_positive limit_exceeded warning_ratio : RiskReason
  risk_recovered recovery_confirmed risk_normal : RiskReason

pub record RiskDecision : Type 0 where
  pub state : RiskState
  pub reason : RiskReason

pub record Thresholds : Type 0 where
  pub warning_ratio : Decimal
  pub liquidation_ratio : Decimal
  pub recovery_ratio : Decimal

-- The figures that a valuation gives.
pub record Valuation : Type 0 where
  pub available : Bool
  pub equity : Decimal
  pub risk_available_cash : Decimal
  pub risk_ratio : Decimal

abbrev pub is_negative : Decimal → Bool
is_negative v = ltb_ℤ v.coefficient (pos 0)

-- `not 0 <= recovery < warning < liquidation` raises.
validate_thresholds : Thresholds → Result (Unit {0})
validate_thresholds t =
    raise_if
      (not (
        not (is_negative t.recovery_ratio)
        && (lt_decimal t.recovery_ratio t.warning_ratio
            && lt_decimal t.warning_ratio t.liquidation_ratio)))
      invalid_thresholds

-- `a >= b`
abbrev pub ge_decimal : Decimal → Decimal → Bool
ge_decimal a b = not (lt_decimal a b)

-- The risk limit: no equity, a deficit, or a ratio at the liquidation threshold.
pub exceeds_limit : Thresholds → Valuation → Bool
exceeds_limit t v =
    is_nonpositive v.equity
    || (is_negative v.risk_available_cash || ge_decimal v.risk_ratio t.liquidation_ratio)

on_exceeded : Valuation → RiskState → RiskDecision
on_exceeded v liquidation_pending = record {
  state = liquidation_pending;
  reason = limit_still_exceeded;
}
on_exceeded v liquidating = record { state = liquidating; reason = limit_still_exceeded }
on_exceeded v _ = record {
  state = margin_deficit;
  reason = if is_nonpositive v.equity then equity_non_positive else limit_exceeded;
}

-- `current_state != NORMAL`
abbrev pub was_abnormal : RiskState → Bool
was_abnormal normal = false
was_abnormal _ = true

-- At the warning threshold, or above the recovery threshold in a state that is not normal.
pub in_warning : Thresholds → Valuation → RiskState → Bool
in_warning t v current =
    ge_decimal v.risk_ratio t.warning_ratio
    || (was_abnormal current && lt_decimal t.recovery_ratio v.risk_ratio)

on_recovery : RiskState → RiskDecision
on_recovery recovered = record { state = normal; reason = recovery_confirmed }
on_recovery normal = record { state = normal; reason = risk_normal }
on_recovery _ = record { state = recovered; reason = risk_recovered }

decide : Thresholds → Valuation → RiskState → RiskDecision
unfolding exceeds_limit on_exceeded in_warning on_recovery
decide t v current =
    if not v.available
    then record { state = valuation_unavailable; reason = no_valuation }
    else if exceeds_limit t v
    then on_exceeded v current
    else if in_warning t v current
    then record { state = warning; reason = warning_ratio }
    else on_recovery current

-- `AccountRiskStateService.evaluate`
pub evaluate : Thresholds → Valuation → RiskState → Result RiskDecision
unfolding validate_thresholds decide
evaluate t v current = do validate_thresholds t; ok (decide t v current)

pub resolve_full_evaluation : Bool → Bool → RiskState
resolve_full_evaluation true deficit = valuation_unavailable
resolve_full_evaluation false true = margin_deficit
resolve_full_evaluation false false = normal

abbrev is_valuation_unavailable : RiskState → Bool
is_valuation_unavailable valuation_unavailable = true
is_valuation_unavailable _ = false

-- `MARGIN_DEFICIT`, `LIQUIDATION_PENDING` or `LIQUIDATING`
abbrev is_in_deficit : RiskState → Bool
is_in_deficit margin_deficit = true
is_in_deficit liquidation_pending = true
is_in_deficit liquidating = true
is_in_deficit _ = false

-- `AccountRiskStateService.preserve_for_local_update`
pub preserve_for_local_update : RiskState → Bool → Bool → RiskState
preserve_for_local_update current no_price deficit =
    if no_price || is_valuation_unavailable current
    then valuation_unavailable
    else if deficit || is_in_deficit current
    then (if was_abnormal current then current else margin_deficit)
    else current

-- `current_state in OPEN_BLOCKED_STATES`
pub is_open_blocked : RiskState → Bool
is_open_blocked margin_deficit = true
is_open_blocked liquidation_pending = true
is_open_blocked liquidating = true
is_open_blocked valuation_unavailable = true
is_open_blocked _ = false

pub ensure_open_allowed : RiskState → Result (Unit {0})
unfolding is_open_blocked
ensure_open_allowed s = raise_if (is_open_blocked s) account_risk_open_blocked
