-- ===== src/Outbox/Workers.antt =====
-- The transactions of concurrent workers, in any order: app/workers/outbox_publisher_worker.py. A claim
-- locks its rows and is one step. `_publish_one` takes no lock: it reads its row, publishes, and commits
-- later, so it is two steps with those of other workers between them. A commit updates, by the id, the
-- columns that the mark has changed against what was read, and leaves the others of the row as they
-- then are.
pub mod Kept
pub mod Bounds
pub mod Updates
pub mod Alone
use sim_trade.Prelude.{
  ℕ, zero, suc, Bool, true, false, ◌&&◌, Option, none, some, List, [], ◌∷◌, ◌==◌, if◌then◌else◌,
}
use sim_trade.Outbox.{
  OutboxStatus, pending, processing, sent, failed, OutboxEvent, claim_pending_events, is_processing,
  publish_event,
}

-- A row of the table, and what the publications in progress have read of it.
pub record Slot : Type 0 where
  pub row : OutboxEvent
  pub loaded : List OutboxEvent

pub data WorkerStep : Type 0 where
  claims : (is_locked : ℕ → Bool) (now timeout batch : ℕ) → WorkerStep
  loads : (event_id : ℕ) → WorkerStep
  commits : (event_id which now : ℕ) (publish : OutboxEvent → Option (List ℕ)) → WorkerStep
  stops : (event_id which : ℕ) → WorkerStep

abbrev pub same_status : OutboxStatus → OutboxStatus → Bool
same_status pending pending = true
same_status processing processing = true
same_status sent sent = true
same_status failed failed = true
same_status _ _ = false

abbrev pub same_time : Option ℕ → Option ℕ → Bool
same_time none none = true
same_time (some t) (some u) = t == u
same_time _ _ = false

abbrev pub same_text : List ℕ → List ℕ → Bool
same_text [] [] = true
same_text (c ∷ cs) (d ∷ ds) = (c == d) && same_text cs ds
same_text _ _ = false

abbrev pub same_error : Option (List ℕ) → Option (List ℕ) → Bool
same_error none none = true
same_error (some t) (some u) = same_text t u
same_error _ _ = false

-- The UPDATE of a session that has read the first event and has changed it to the second.
unfoldable pub updated : OutboxEvent → OutboxEvent → OutboxEvent → OutboxEvent
updated before after e = record e {
  status = if same_status before.status after.status then e.status else after.status;
  retry_count =
      if before.retry_count == after.retry_count then e.retry_count else after.retry_count;
  next_retry_at =
      if same_time before.next_retry_at after.next_retry_at
      then e.next_retry_at
      else after.next_retry_at;
  sent_at = if same_time before.sent_at after.sent_at then e.sent_at else after.sent_at;
  last_error =
      if same_error before.last_error after.last_error then e.last_error else after.last_error;
}

-- The element at a place, and the others.
pub taken : ℕ → List OutboxEvent → Option OutboxEvent × List OutboxEvent
taken n [] = (none, [])
taken zero (e ∷ es) = (some e, es)
taken (suc n) (e ∷ es) = let (found, rest) = taken n es in (found, e ∷ rest)

-- `get_by_event_id`, and the session that goes on only with a claimed event.
pub load : Slot → Slot
load s = if is_processing s.row.status then record s { loaded = s.row ∷ s.loaded } else s

pub commit_found :
    ℕ → (OutboxEvent → Option (List ℕ)) → Slot → Option OutboxEvent × List OutboxEvent → Slot
commit_found now publish s (none, rest) = record s { loaded = rest }
commit_found now publish s (some e, rest) = record {
  row = updated e (publish_event now publish e).1 s.row;
  loaded = rest;
}

-- The publication of what was read, and its mark.
pub commit : ℕ → ℕ → (OutboxEvent → Option (List ℕ)) → Slot → Slot
unfolding taken commit_found
commit which now publish s = commit_found now publish s (taken which s.loaded)

-- A session that ends with no commit.
pub stop : ℕ → Slot → Slot
unfolding taken
stop which s = record s { loaded = (taken which s.loaded).1 }

pub at_event : ℕ → (Slot → Slot) → List Slot → List Slot
at_event key change [] = []
at_event key change (s ∷ rest) =
    if s.row.event_id == key then change s ∷ rest else s ∷ at_event key change rest

unfoldable pub rows_of : List Slot → List OutboxEvent
rows_of [] = []
rows_of (s ∷ rest) = s.row ∷ rows_of rest

pub with_rows : List OutboxEvent → List Slot → List Slot
with_rows [] slots = slots
with_rows (e ∷ es) [] = []
with_rows (e ∷ es) (s ∷ rest) = record s { row = e } ∷ with_rows es rest

pub worker_step : WorkerStep → List Slot → List Slot
unfolding claim_pending_events rows_of with_rows load commit stop at_event
worker_step (claims is_locked now timeout batch) slots =
    with_rows (claim_pending_events is_locked now timeout batch (rows_of slots)).0 slots
worker_step (loads event_id) slots = at_event event_id load slots
worker_step (commits event_id which now publish) slots =
    at_event event_id (commit which now publish) slots
worker_step (stops event_id which) slots = at_event event_id (stop which) slots

unfoldable pub run_steps : List WorkerStep → List Slot → List Slot
unfolding worker_step
run_steps [] slots = slots
run_steps (step ∷ rest) slots = run_steps rest (worker_step step slots)
