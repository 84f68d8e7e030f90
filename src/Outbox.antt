-- ===== src/Outbox.antt =====
-- The transactional outbox: `OutboxRepository` of app/repositories/outbox_repository.py and the rounds
-- of `OutboxPublisherWorker` of app/workers/outbox_publisher_worker.py. The table is the list of its
-- rows in the order of their ids. Times are numbers of seconds, an error text is the list of its
-- characters, and the `updated_at` column, which nothing reads, is left out. The publisher (Redis) is
-- a parameter: what it answers for an event, `none` for a success and an error text otherwise.
pub mod Workers
pub mod Retries
mod Tests
use sim_trade.Prelude.{
  ℕ, zero, suc, ◌+◌, ◌-◌, ◌*◌, ◌^◌, min, Bool, true, false, not, ◌&&◌, Option, none, some, List, [],
  ◌∷◌, leb, ◌==◌, if◌then◌else◌,
}

-- `OutboxStatus`
pub data OutboxStatus : Type 0 where
  pending processing sent failed : OutboxStatus

pub record OutboxEvent : Type 0 where
  pub event_id : ℕ
  pub status : OutboxStatus
  pub retry_count : ℕ
  pub max_retries : ℕ
  pub next_retry_at : Option ℕ
  pub sent_at : Option ℕ
  pub last_error : Option (List ℕ)

abbrev reached : ℕ → Option ℕ → Bool
reached now none = false
reached now (some t) = leb t now

-- A pending row without a time is due; a comparison with a missing lease is not true in SQL.
due_with : OutboxStatus → ℕ → Option ℕ → Bool
due_with pending now none = true
due_with pending now (some t) = leb t now
due_with processing now lease = reached now lease
due_with sent now lease = false
due_with failed now lease = false

pub is_due : ℕ → OutboxEvent → Bool
unfolding due_with
is_due now e = due_with e.status now e.next_retry_at

pub claimed : ℕ → ℕ → OutboxEvent → OutboxEvent
claimed now timeout e = record e { status = processing; next_retry_at = some (now + timeout) }

-- A row that is claimed, or passed over, before the others.
pub claim_row :
    Bool
    → ℕ
    → ℕ
    → OutboxEvent
    → List OutboxEvent × List OutboxEvent
    → List OutboxEvent × List OutboxEvent
unfolding claimed
claim_row true now timeout e (rows, events) =
    (claimed now timeout e ∷ rows, claimed now timeout e ∷ events)
claim_row false now timeout e (rows, events) = (e ∷ rows, events)

-- `claim_pending_events`: the rows as they are left, and the claimed ones. Rows that another worker
-- has locked are skipped.
pub claim_pending_events :
    (ℕ → Bool) → ℕ → ℕ → ℕ → List OutboxEvent → List OutboxEvent × List OutboxEvent
unfolding is_due claim_row
claim_pending_events is_locked now timeout batch [] = ([], [])
claim_pending_events is_locked now timeout batch (e ∷ rest) =
    let taken = is_due now e && (not (is_locked e.event_id) && not (batch == 0)) in
    claim_row taken now timeout e
      (claim_pending_events is_locked now timeout (if taken then batch - 1 else batch) rest)

pub mark_sent : ℕ → OutboxEvent → OutboxEvent
mark_sent now e = record e {
  status = sent;
  sent_at = some now;
  next_retry_at = none;
  last_error = none;
}

-- `error[:4000]`
pub cut : ℕ → List ℕ → List ℕ
cut zero text = []
cut (suc n) [] = []
cut (suc n) (c ∷ text) = c ∷ cut n text

pub mark_failed : List ℕ → OutboxEvent → OutboxEvent
mark_failed error e = record e {
  status = failed;
  next_retry_at = none;
  last_error = some (cut 4000 error);
}

-- 5, 10, 20, 40 seconds and so on, and at most 300.
pub delay_seconds : ℕ → ℕ
delay_seconds retry_count = min (5 * 2 ^ (retry_count - 1)) 300

pub mark_retry : ℕ → List ℕ → OutboxEvent → OutboxEvent
unfolding mark_failed
mark_retry now error e =
    let n = e.retry_count + 1 in
    if leb e.max_retries n
    then mark_failed error (record e { retry_count = n; last_error = some (cut 4000 error) })
    else record e {
      retry_count = n;
      last_error = some (cut 4000 error);
      status = pending;
      next_retry_at = some (now + delay_seconds n);
    }

pub data PublishOutcome : Type 0 where
  skipped was_sent retried was_failed : PublishOutcome

abbrev is_failed : OutboxStatus → Bool
is_failed failed = true
is_failed _ = false

abbrev pub is_processing : OutboxStatus → Bool
is_processing processing = true
is_processing _ = false

-- What the publisher's answer makes of the event.
pub answered : Option (List ℕ) → ℕ → OutboxEvent → PublishOutcome × OutboxEvent
unfolding mark_sent mark_retry
answered none now e = (was_sent, mark_sent now e)
answered (some error) now e =
    let e' = mark_retry now error e in (if is_failed e'.status then was_failed else retried, e')

-- `_publish_one`, once its row was found.
unfoldable pub publish_event :
    ℕ → (OutboxEvent → Option (List ℕ)) → OutboxEvent → PublishOutcome × OutboxEvent
unfolding answered
publish_event now publish e =
    if is_processing e.status then answered (publish e) now e else (skipped, e)

-- `_publish_one`: the row by its id, which is unique.
pub publish_one :
    (ℕ → ℕ)
    → (OutboxEvent → Option (List ℕ))
    → ℕ
    → List OutboxEvent
    → PublishOutcome × List OutboxEvent
unfolding publish_event
publish_one clock publish key [] = (skipped, [])
publish_one clock publish key (e ∷ rest) =
    if e.event_id == key
    then (let (outcome, e') = publish_event (clock key) publish e in (outcome, e' ∷ rest))
    else (let (outcome, rest') = publish_one clock publish key rest in (outcome, e ∷ rest'))

pub record PublishRunResult : Type 0 where
  pub claimed_count : ℕ
  pub sent_count : ℕ
  pub retried_count : ℕ
  pub failed_count : ℕ

counted : PublishOutcome → PublishRunResult → PublishRunResult
counted skipped r = r
counted was_sent r = record r { sent_count = r.sent_count + 1 }
counted retried r = record r { retried_count = r.retried_count + 1 }
counted was_failed r = record r { failed_count = r.failed_count + 1 }

-- The loop over the claimed ids.
pub publish_all :
    (ℕ → ℕ)
    → (OutboxEvent → Option (List ℕ))
    → List OutboxEvent
    → PublishRunResult
    → List OutboxEvent
    → PublishRunResult × List OutboxEvent
unfolding publish_one counted
publish_all clock publish [] result rows = (result, rows)
publish_all clock publish (e ∷ events) result rows =
    let (outcome, rows') = publish_one clock publish e.event_id rows in
    publish_all clock publish events (counted outcome result) rows'

-- What one round meets: the time of the claim, the rows that are locked elsewhere, the clock at each
-- publication, and the publisher's answers.
pub record Round : Type 0 where
  pub now : ℕ
  pub is_locked : ℕ → Bool
  pub clock : ℕ → ℕ
  pub publish : OutboxEvent → Option (List ℕ)

count_of : List OutboxEvent → ℕ
count_of [] = 0
count_of (e ∷ rest) = count_of rest + 1

-- `run_once` of a worker with this batch size and this lease.
pub run_once : ℕ → ℕ → Round → List OutboxEvent → PublishRunResult × List OutboxEvent
unfolding claim_pending_events publish_all count_of
run_once batch timeout r rows =
    let (rows1, events) = claim_pending_events r.is_locked r.now timeout batch rows in
    publish_all r.clock r.publish events
      (record {
        claimed_count = count_of events;
        sent_count = 0;
        retried_count = 0;
        failed_count = 0;
      })
      rows1
