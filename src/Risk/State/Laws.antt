-- ===== src/Risk/State/Laws.antt =====
-- The risk state machine: what blocks an opening order, the way back to NORMAL, and who may
-- start a liquidation.
use sim_trade.Prelude.{
  ◌≡◌, ◌≢◌, inl, inr, refl, sym, ap, ◌∙◌, Bool, true, false, not, ◌||◌, ◌&&◌, arith, Bool-cases,
}
use sim_trade.Errors.{ok, >>=-eq-ok, ok-injective}
use sim_trade.Money.{lt_decimal}
use sim_trade.Risk.State.{
  RiskState, normal, warning, liquidation_pending, liquidating, recovered, valuation_unavailable,
  RiskDecision, Thresholds, Valuation, validate_thresholds, exceeds_limit, on_exceeded, in_warning,
  on_recovery, decide, evaluate, preserve_for_local_update, is_open_blocked,
}

decide_of_ok :
    (t : Thresholds) (v : Valuation) (s : RiskState) (d : RiskDecision)
    → evaluate t v s ≡ ok d
    → decide t v s ≡ d
unfolding evaluate
decide_of_ok t v s d h = let (_, _, h1) = >>=-eq-ok (validate_thresholds t) _ h in ok-injective h1

on_exceeded-blocked :
    (v : Valuation) (s : RiskState) → is_open_blocked (on_exceeded v s).state ≡ true
unfolding on_exceeded is_open_blocked
on_exceeded-blocked v liquidating = refl
on_exceeded-blocked v _ = refl

on_recovery-free : (s : RiskState) → is_open_blocked (on_recovery s).state ≡ false
unfolding on_recovery is_open_blocked
on_recovery-free recovered = refl
on_recovery-free normal = refl
on_recovery-free _ = refl

-- The cases of `decide`, with its parts shut.
module _ (t : Thresholds) (v : Valuation) (s : RiskState) where
  decide-unavailable : v.available ≡ false → (decide t v s).state ≡ valuation_unavailable
  unfolding decide
  decide-unavailable h = rw h refl

  decide-exceeded : v.available ≡ true → exceeds_limit t v ≡ true → decide t v s ≡ on_exceeded v s
  unfolding decide
  decide-exceeded h k = rw (h, k) refl

  decide-warning :
      v.available ≡ true
      → exceeds_limit t v ≡ false
      → in_warning t v s ≡ true
      → (decide t v s).state ≡ warning
  unfolding decide
  decide-warning h k w = rw (h, k, w) refl

  decide-recovery :
      v.available ≡ true
      → exceeds_limit t v ≡ false
      → in_warning t v s ≡ false
      → decide t v s ≡ on_recovery s
  unfolding decide
  decide-recovery h k w = rw (h, k, w) refl

  decide-blocked : is_open_blocked (decide t v s).state ≡ (not v.available || exceeds_limit t v)
  decide-blocked = elim (Bool-cases v.available) [
    | inr off ↦ simp (decide-unavailable off, off) (unfold is_open_blocked in refl)
    | inl on ↦ elim (Bool-cases (exceeds_limit t v)) [
      | inl over ↦ simp (decide-exceeded on over, on, over) (on_exceeded-blocked v s)
      | inr under ↦ elim (Bool-cases (in_warning t v s)) [
        | inl w ↦ simp (decide-warning on under w, on, under) (unfold is_open_blocked in refl)
        | inr ok_ratio ↦ simp (decide-recovery on under ok_ratio, on, under) (on_recovery-free s)
      ]
    ]
  ]

-- An evaluation blocks opening orders exactly when there is no valuation or the risk limit is
-- exceeded, whatever the state was before.
pub evaluate-blocked :
    (t : Thresholds) (v : Valuation) (s : RiskState) (d : RiskDecision)
    → evaluate t v s ≡ ok d
    → is_open_blocked d.state ≡ (not v.available || exceeds_limit t v)
evaluate-blocked t v s d h = rw (← decide_of_ok t v s d h) (decide-blocked t v s)

-- The states in which a liquidation is under way.
abbrev pub is_liquidation : RiskState → Bool
is_liquidation liquidation_pending = true
is_liquidation liquidating = true
is_liquidation _ = false

on_exceeded-liquidation :
    (v : Valuation) (s : RiskState)
    → is_liquidation (on_exceeded v s).state ≡ true
    → (on_exceeded v s).state ≡ s
unfolding on_exceeded
on_exceeded-liquidation v liquidation_pending h = refl
on_exceeded-liquidation v liquidating h = refl
on_exceeded-liquidation v _ h = cc

on_recovery-liquidation : (s : RiskState) → is_liquidation (on_recovery s).state ≢ true
unfolding on_recovery
on_recovery-liquidation recovered h = cc
on_recovery-liquidation normal h = cc
on_recovery-liquidation _ h = cc

decide-liquidation :
    (t : Thresholds) (v : Valuation) (s : RiskState)
    → is_liquidation (decide t v s).state ≡ true
    → ((decide t v s).state ≡ s) × (exceeds_limit t v ≡ true)
decide-liquidation t v s h = elim (Bool-cases v.available) [
  | inr off ↦ let h' = rw (decide-unavailable t v s off) at h in cc
  | inl on ↦ elim (Bool-cases (exceeds_limit t v)) [
    | inl over ↦
        let e = decide-exceeded t v s on over in
        let h' = simp e at h in (simp e (on_exceeded-liquidation v s h'), over)
    | inr under ↦ elim (Bool-cases (in_warning t v s)) [
      | inl w ↦ let h' = rw (decide-warning t v s on under w) at h in cc
      | inr low ↦
          absurd (on_recovery-liquidation s (simp (decide-recovery t v s on under low) at h))
    ]
  ]
]

-- An evaluation never starts a liquidation: a decision for a liquidation state is the state that the
-- account had, and the limit is still exceeded.
pub evaluate-liquidation :
    (t : Thresholds) (v : Valuation) (s : RiskState) (d : RiskDecision)
    → evaluate t v s ≡ ok d
    → is_liquidation d.state ≡ true
    → (d.state ≡ s) × (exceeds_limit t v ≡ true)
evaluate-liquidation t v s d h l =
    let e = decide_of_ok t v s d h in rw e at (decide-liquidation t v s (rw (← e) at l))

-- A good valuation: there is one, the limit is kept, and the ratio is no higher than the recovery
-- and the warning thresholds.
pub record IsGood (t : Thresholds) (v : Valuation) : Type 0 where
  pub on : v.available ≡ true
  pub under : exceeds_limit t v ≡ false
  pub below_recovery : lt_decimal t.recovery_ratio v.risk_ratio ≡ false
  pub below_warning : lt_decimal v.risk_ratio t.warning_ratio ≡ true

good-low : (t : Thresholds) (v : Valuation) (s : RiskState) → IsGood t v → in_warning t v s ≡ false
unfolding in_warning
good-low t v s g = ground arith

recovery_twice : (s : RiskState) → (on_recovery (on_recovery s).state).state ≡ normal
unfolding on_recovery
recovery_twice recovered = refl
recovery_twice normal = refl
recovery_twice _ = refl

-- Two evaluations with a good valuation take an account from any state to NORMAL.
pub evaluate-recovers :
    (t : Thresholds) (v : Valuation) (s : RiskState) (first second : RiskDecision)
    → IsGood t v
    → evaluate t v s ≡ ok first
    → evaluate t v first.state ≡ ok second
    → second.state ≡ normal
evaluate-recovers t v s first second g h k =
    let e1 = decide_of_ok t v s first h in
    let e2 = decide_of_ok t v first.state second k in
    let r1 = decide-recovery t v s g.on g.under (good-low t v s g) in
    let r2 = decide-recovery t v first.state g.on g.under (good-low t v first.state g) in
    ap (λ (d : RiskDecision). d.state) (sym e2 ∙ r2)
    ∙ ap (λ (d : RiskDecision). (on_recovery d.state).state) (sym e1 ∙ r1)
    ∙ recovery_twice s

-- WARNING or RECOVERED
abbrev pub is_warned : RiskState → Bool
is_warned warning = true
is_warned recovered = true
is_warned _ = false

-- After a local update opening orders are blocked exactly when it found no price, when they were blocked
-- before, or when it found a deficit, except that a deficit leaves an account in WARNING or RECOVERED
-- as it was, and that is not blocked.
pub preserve_for_local_update-blocked :
    (s : RiskState) (no_price deficit : Bool)
    → is_open_blocked (preserve_for_local_update s no_price deficit)
      ≡ (no_price || (is_open_blocked s || (deficit && not (is_warned s))))
unfolding preserve_for_local_update is_open_blocked
preserve_for_local_update-blocked s no_price deficit = ground arith

-- A local update of an account that is not NORMAL never makes it NORMAL.
pub preserve_for_local_update-abnormal :
    (s : RiskState) (no_price deficit : Bool)
    → s ≢ normal
    → preserve_for_local_update s no_price deficit ≢ normal
unfolding preserve_for_local_update
preserve_for_local_update-abnormal s no_price deficit h e = ground arith
