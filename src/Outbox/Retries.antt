-- ===== src/Outbox/Retries.antt =====
-- Failed publications: how long an event waits, and when it is given up.
use native.Mathlib.Nat.{one-le-pow}
use sim_trade.Prelude.{
  ℕ, suc, ◌+◌, ◌-◌, ◌^◌, ◌≤◌, ◌<◌, ◌≡◌, ◌∙◌, ap, refl, true, false, ltb, some, List, [], ◌∷◌,
  length, arith, if◌then◌else◌, Bool-cases, inl, inr,
}
use sim_trade.Outbox.{pending, failed, OutboxEvent, is_due, claimed, delay_seconds, publish_event}

-- After a failure an event waits at least five seconds, and five minutes at most.
pub delay_bounds : (n : ℕ) → (5 ≤ delay_seconds n) × (delay_seconds n ≤ 300)
unfolding delay_seconds
delay_bounds n =
    let one : 1 ≤ 2 ^ (n - 1) = one-le-pow (n - 1) 2 (omega arith) in (omega arith, omega arith)

-- An attempt at this time: the event is claimed if it is due, and its publication fails.
pub attempt : ℕ → ℕ → List ℕ → OutboxEvent → OutboxEvent
attempt timeout now error e =
    if is_due now e then (publish_event now (λ _. some error) (claimed now timeout e)).1 else e

pub attempt_all : ℕ → List (ℕ × List ℕ) → OutboxEvent → OutboxEvent
attempt_all timeout [] e = e
attempt_all timeout ((now, error) ∷ rest) e = attempt_all timeout rest (attempt timeout now error e)

-- Each attempt comes no earlier than five minutes after the one before it.
abbrev pub IsSpaced : ℕ → List (ℕ × List ℕ) → Type 0
IsSpaced t [] = Unit
IsSpaced t ((now, error) ∷ rest) = (t ≤ now) × IsSpaced (now + 300) rest

attempt_again :
    (timeout now : ℕ) (error : List ℕ) (e : OutboxEvent)
    → is_due now e ≡ true
    → e.retry_count + 1 < e.max_retries
    → let e' = attempt timeout now error e in
      (e'.status ≡ pending)
      × (e'.retry_count ≡ e.retry_count + 1)
      × (e'.max_retries ≡ e.max_retries)
      × (e'.next_retry_at ≡ some (now + delay_seconds (e.retry_count + 1)))
unfolding attempt publish_event claimed
attempt_again timeout now error e due more = ground arith

attempt_last :
    (timeout now : ℕ) (error : List ℕ) (e : OutboxEvent)
    → is_due now e ≡ true
    → e.max_retries ≤ e.retry_count + 1
    → (attempt timeout now error e).status ≡ failed
unfolding attempt publish_event claimed
attempt_last timeout now error e due last = ground arith

attempt_failed :
    (timeout now : ℕ) (error : List ℕ) (e : OutboxEvent)
    → e.status ≡ failed
    → attempt timeout now error e ≡ e
unfolding attempt is_due
attempt_failed timeout now error e h = rw h refl

attempt_all-failed :
    (timeout : ℕ) (attempts : List (ℕ × List ℕ)) (e : OutboxEvent)
    → e.status ≡ failed
    → (attempt_all timeout attempts e).status ≡ failed
unfolding attempt_all
attempt_all-failed timeout [] e h = h
attempt_all-failed timeout ((now, error) ∷ rest) e h =
    attempt_all-failed timeout rest (attempt timeout now error e)
      (ap (λ (x : OutboxEvent). x.status) (attempt_failed timeout now error e h) ∙ h)

-- An event that waits, at the latest until `t`.
pub record IsWaiting (t : ℕ) (e : OutboxEvent) : Type 0 where
  pub status : e.status ≡ pending
  pub until : ℕ
  pub due_time : e.next_retry_at ≡ some until
  pub reached : until ≤ t

waiting_due : (t now : ℕ) (e : OutboxEvent) → IsWaiting t e → t ≤ now → is_due now e ≡ true
unfolding is_due
waiting_due t now e w h =
    let s = w.status in let d = w.due_time in let r = w.reached in rw (s, d) (ground arith)

again-IsWaiting :
    (timeout t now : ℕ) (error : List ℕ) (e : OutboxEvent)
    → IsWaiting t e
    → t ≤ now
    → e.retry_count + 1 < e.max_retries
    → IsWaiting (now + 300) (attempt timeout now error e)
again-IsWaiting timeout t now error e w h more =
    let (s, _, _, n) = attempt_again timeout now error e (waiting_due t now e w h) more in
    record {
      status = s;
      until = now + delay_seconds (e.retry_count + 1);
      due_time = n;
      reached = omega (arith, (delay_bounds (e.retry_count + 1)).1);
    }

-- A waiting event with a retry left, whose publications all fail, five minutes or more apart, is given
-- up after exactly as many attempts as it has retries left, and before that it waits for the next one.
pub attempt_all_status :
    (timeout t : ℕ) (attempts : List (ℕ × List ℕ)) (e : OutboxEvent)
    → IsSpaced t attempts
    → IsWaiting t e
    → e.retry_count < e.max_retries
    → (attempt_all timeout attempts e).status
      ≡ (if ltb (e.retry_count + length attempts) e.max_retries then pending else failed)
unfolding attempt_all attempt
attempt_all_status timeout t [] e spaced w left =
    let s = w.status in
    let more : ltb (e.retry_count + 0) e.max_retries ≡ true = ground arith in rw more s
attempt_all_status timeout t ((now, error) ∷ rest) e spaced w left =
    let due = waiting_due t now e w spaced.0 in
    elim (Bool-cases (ltb (e.retry_count + 1) e.max_retries)) [
      | inl more ↦
          let lt : e.retry_count + 1 < e.max_retries = ground arith in
          let (_, n, m, _) = attempt_again timeout now error e due lt in
          let ih =
            attempt_all_status timeout (now + 300) rest (attempt timeout now error e) spaced.1
              (again-IsWaiting timeout t now error e w spaced.0 lt) (rw (n, m) lt) in
          let same : e.retry_count + 1 + length rest ≡ e.retry_count + suc (length rest) =
            omega arith in
          rw (← same) (rw (n, m) at ih)
      | inr last ↦
          let le : e.max_retries ≤ e.retry_count + 1 = ground arith in
          let over : ltb (e.retry_count + suc (length rest)) e.max_retries ≡ false = ground arith in
          rw over (attempt_all-failed timeout rest _ (attempt_last timeout now error e due le))
    ]
