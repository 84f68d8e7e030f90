-- ===== src/Risk/State/Tests.antt =====
-- Thresholds of 0.8, 1 and 0.7, a valuation in deficit and one that has recovered.
use sim_trade.Prelude.{◌≡◌, refl, true, false, not, ◌||◌, ◌&&◌}
use sim_trade.Prelude.Int.{ℤ, pos, negsuc, ◌*ℤ◌}
use sim_trade.Errors.{ok, err, account_risk_open_blocked}
use sim_trade.Money.{Decimal, of_int}
use sim_trade.Risk.State.{
  normal, warning, margin_deficit, liquidating, recovered, valuation_unavailable, limit_exceeded,
  limit_still_exceeded, risk_recovered, recovery_confirmed, RiskDecision, Thresholds, Valuation,
  exceeds_limit, evaluate, resolve_full_evaluation, preserve_for_local_update, is_open_blocked,
  ensure_open_allowed,
}
use sim_trade.Risk.State.Laws.{
  is_warned, IsGood, evaluate-blocked, evaluate-liquidation, evaluate-recovers,
  preserve_for_local_update-blocked,
}

abbrev tenths : ℤ → Decimal
tenths n = record { coefficient = n; places = 1 }

abbrev thresholds : Thresholds
thresholds = record {
  warning_ratio = tenths (pos 8);
  liquidation_ratio = of_int (pos 1);
  recovery_ratio = tenths (pos 7);
}

abbrev deficit : Valuation
deficit = record {
  available = true;
  equity = of_int (pos 100);
  risk_available_cash = of_int (negsuc 0);
  risk_ratio = tenths (pos 9);
}

abbrev sound : Valuation
sound = record {
  available = true;
  equity = of_int (pos 100);
  risk_available_cash = of_int (pos 50);
  risk_ratio = tenths (pos 5);
}

abbrev into_deficit : RiskDecision
into_deficit = record { state = margin_deficit; reason = limit_exceeded }

normal_to_deficit : evaluate thresholds deficit normal ≡ ok into_deficit
unfolding evaluate ◌*ℤ◌
normal_to_deficit = refl

abbrev still_liquidating : RiskDecision
still_liquidating = record { state = liquidating; reason = limit_still_exceeded }

liquidating_goes_on : evaluate thresholds deficit liquidating ≡ ok still_liquidating
unfolding evaluate ◌*ℤ◌
liquidating_goes_on = refl

abbrev into_recovered : RiskDecision
into_recovered = record { state = recovered; reason = risk_recovered }

abbrev into_normal : RiskDecision
into_normal = record { state = normal; reason = recovery_confirmed }

deficit_to_recovered : evaluate thresholds sound margin_deficit ≡ ok into_recovered
unfolding evaluate ◌*ℤ◌
deficit_to_recovered = refl

recovered_to_normal : evaluate thresholds sound recovered ≡ ok into_normal
unfolding evaluate ◌*ℤ◌
recovered_to_normal = refl

sound-IsGood : IsGood thresholds sound
unfolding exceeds_limit ◌*ℤ◌
sound-IsGood = record { on = refl; under = refl; below_recovery = refl; below_warning = refl }

full_evaluation : resolve_full_evaluation true true ≡ valuation_unavailable
unfolding resolve_full_evaluation
full_evaluation = refl

deficit_blocks : ensure_open_allowed margin_deficit ≡ err account_risk_open_blocked
unfolding ensure_open_allowed
deficit_blocks = refl

evaluate-blocked_example :
    is_open_blocked margin_deficit ≡ (not true || exceeds_limit thresholds deficit)
evaluate-blocked_example = evaluate-blocked thresholds deficit normal into_deficit normal_to_deficit

evaluate-liquidation_example :
    (liquidating ≡ liquidating) × (exceeds_limit thresholds deficit ≡ true)
evaluate-liquidation_example =
    evaluate-liquidation thresholds deficit liquidating still_liquidating liquidating_goes_on refl

evaluate-recovers_example : normal ≡ normal
evaluate-recovers_example =
    evaluate-recovers thresholds sound margin_deficit into_recovered into_normal sound-IsGood
      deficit_to_recovered recovered_to_normal

preserve_for_local_update-blocked_example :
    is_open_blocked (preserve_for_local_update warning false true)
    ≡ (false || (is_open_blocked warning || (true && not (is_warned warning))))
preserve_for_local_update-blocked_example = preserve_for_local_update-blocked warning false true
