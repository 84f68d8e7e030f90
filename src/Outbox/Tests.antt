-- ===== src/Outbox/Tests.antt =====
-- Two events, of which one cannot be published and is given up after three attempts.
use sim_trade.Prelude.{
  ℕ, ◌+◌, ◌≡◌, refl, false, ltb, none, some, List, [], ◌∷◌, arith, All, if◌then◌else◌, ◌==◌,
}
use sim_trade.Outbox.{
  pending, sent, failed, OutboxEvent, Round, run_once, publish_event, delay_seconds, cut,
}
use sim_trade.Outbox.Workers.{WorkerStep, claims, loads, commits, updated, rows_of, run_steps}
use sim_trade.Outbox.Workers.Kept.{IsBounded, AreKept}
use sim_trade.Outbox.Workers.Bounds.{run_steps-AreKept}
use sim_trade.Outbox.Workers.Alone.{idle}
use sim_trade.Outbox.Retries.{IsWaiting, attempt_all, attempt_all_status}

abbrev fresh : ℕ → OutboxEvent
fresh key = record {
  event_id = key;
  status = pending;
  retry_count = 0;
  max_retries = 3;
  next_retry_at = none;
  sent_at = none;
  last_error = none;
}

abbrev rows : List OutboxEvent
rows = fresh 1 ∷ fresh 2 ∷ []

-- The second event cannot be published.
abbrev first_round : Round
first_round = record {
  now = 100;
  is_locked = λ k. false;
  clock = λ k. 101;
  publish = λ e. if e.event_id == 2 then some (7 ∷ []) else none;
}

first_round_result :
    (run_once 10 60 first_round rows).0
    ≡ record { claimed_count = 2; sent_count = 1; retried_count = 1; failed_count = 0 }
unfolding run_once
first_round_result = refl

rows_after_one :
    (run_once 10 60 first_round rows).1
    ≡ record (fresh 1) { status = sent; sent_at = some 101 }
      ∷ record (fresh 2) { retry_count = 1; next_retry_at = some 106; last_error = some (7 ∷ []) }
      ∷ []
unfolding run_once delay_seconds cut
rows_after_one = refl

-- The lease of the first worker ends before it commits: a second one claims the event again and sends it,
-- and then the first one, whose publication failed, makes it pending again.
abbrev late : List WorkerStep
late =
    claims (λ k. false) 100 60 10
    ∷ loads 1
    ∷ claims (λ k. false) 200 60 10
    ∷ loads 1
    ∷ commits 1 0 201 (λ e. none)
    ∷ commits 1 0 202 (λ e. some (7 ∷ []))
    ∷ []

late_result :
    rows_of (run_steps late (idle (fresh 1 ∷ [])))
    ≡ record (fresh 1) {
      retry_count = 1;
      next_retry_at = some 207;
      sent_at = some 201;
      last_error = some (7 ∷ []);
    }
      ∷ []
unfolding run_steps delay_seconds cut updated rows_of idle publish_event
late_result = refl

idle-IsBounded : All IsBounded (idle rows)
unfolding idle
idle-IsBounded = (
  record { retries = omega arith; loaded = tt },
  (record { retries = omega arith; loaded = tt }, tt),
)

run_steps-AreKept_example : AreKept (idle rows) (run_steps late (idle rows))
run_steps-AreKept_example = run_steps-AreKept late (idle rows) idle-IsBounded

abbrev waiting : OutboxEvent
waiting = record (fresh 2) { next_retry_at = some 50 }

abbrev attempts : List (ℕ × List ℕ)
attempts = (100, []) ∷ (400, []) ∷ (1000, []) ∷ []

waiting-IsWaiting : IsWaiting 60 waiting
waiting-IsWaiting = record { status = refl; until = 50; due_time = refl; reached = omega arith }

attempt_all_status_example :
    (attempt_all 60 attempts waiting).status ≡ (if ltb (0 + 3) 3 then pending else failed)
attempt_all_status_example =
    attempt_all_status 60 60 attempts waiting (omega arith) waiting-IsWaiting (omega arith)
