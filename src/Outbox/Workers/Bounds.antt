-- ===== src/Outbox/Workers/Bounds.antt =====
-- What every interleaving of the workers keeps of an event.
use sim_trade.Prelude.{
  ℕ, ◌+◌, leb, ◌<◌, ◌≤◌, ◌≡◌, inl, inr, refl, Bool, true, false, ◌&&◌, Option, none, some, List, [],
  ◌∷◌, ◌==◌, All, arith, Bool-cases, zero, suc,
}
use sim_trade.Outbox.{
  OutboxStatus, pending, processing, sent, failed, OutboxEvent, is_processing, mark_sent,
  mark_retry, answered, publish_event,
}
use sim_trade.Outbox.Workers.{
  Slot, WorkerStep, claims, loads, commits, stops, updated, taken, load, commit, commit_found, stop,
  at_event, rows_of, worker_step, run_steps,
}
use sim_trade.Outbox.Workers.Kept.{
  IsWithin, IsLoaded, IsBounded, is_final, is_empty, IsKept, AreKept, IsKept-refl, AreKept-refl,
  AreKept-trans, AreKept-IsBounded, claim_pending_events-ArePassed, passed-AreKept,
}

-- What a commit writes.
abbrev IsWritten : OutboxEvent → OutboxEvent → Type 0
IsWritten f g = IsWithin g.status g.retry_count g.max_retries × (g.max_retries ≡ f.max_retries)

within_most : (status : OutboxStatus) (n m : ℕ) → IsWithin status n m → n ≤ m
within_most pending n m h = omega arith
within_most processing n m h = omega arith
within_most sent n m h = h
within_most failed n m h = omega (arith, h)

sent-IsWritten :
    (now : ℕ) (e f : OutboxEvent)
    → IsLoaded f.max_retries e
    → IsWithin f.status f.retry_count f.max_retries
    → IsWritten f (updated e (mark_sent now e) f)
unfolding updated mark_sent
sent-IsWritten now e f l w =
    let most = within_most f.status f.retry_count f.max_retries w in
    let kept : (e.retry_count == e.retry_count) ≡ true = ground arith in
    rw (l.status, kept) (most, refl)

retry-IsWritten :
    (now : ℕ) (error : List ℕ) (e f : OutboxEvent)
    → IsLoaded f.max_retries e
    → IsWritten f (updated e (mark_retry now error e) f)
unfolding updated mark_retry
retry-IsWritten now error e f l =
    let below = l.below in
    let maximum = l.same_maximum in
    let changed : (e.retry_count == e.retry_count + 1) ≡ false = ground arith in
    elim (Bool-cases (leb e.max_retries (e.retry_count + 1))) [
      | inl last ↦ rw (last, l.status, changed) (ground arith, refl)
      | inr more ↦ rw (more, l.status, changed) (ground arith, refl)
    ]

answered-IsWritten :
    (answer : Option (List ℕ)) (now : ℕ) (e f : OutboxEvent)
    → IsLoaded f.max_retries e
    → IsWithin f.status f.retry_count f.max_retries
    → IsWritten f (updated e (answered answer now e).1 f)
unfolding answered
answered-IsWritten none now e f l w = sent-IsWritten now e f l w
answered-IsWritten (some error) now e f l w = retry-IsWritten now error e f l

publish_event-IsWritten :
    (now : ℕ) (publish : OutboxEvent → Option (List ℕ)) (e f : OutboxEvent)
    → IsLoaded f.max_retries e
    → IsWithin f.status f.retry_count f.max_retries
    → IsWritten f (updated e (publish_event now publish e).1 f)
unfolding publish_event
publish_event-IsWritten now publish e f l w =
    let active : is_processing e.status ≡ true = rw l.status refl in
    rw active (answered-IsWritten (publish e) now e f l w)

-- An element of a list, and the others, have what all have.
module _ (P : OutboxEvent → Type 0) where
  taken-All : (n : ℕ) (es : List OutboxEvent) → All P es → All P (taken n es).1
  unfolding taken
  taken-All n [] h = tt
  taken-All zero (e ∷ es) h = h.1
  taken-All (suc n) (e ∷ es) h = (h.0, taken-All n es h.1)

  taken-found :
      (n : ℕ) (es : List OutboxEvent) (e : OutboxEvent) → All P es → (taken n es).0 ≡ some e → P e
  unfolding taken
  taken-found n [] e h found = absurd cc
  taken-found zero (d ∷ es) e h found = let same : d ≡ e = cc in rw (← same) h.0
  taken-found (suc n) (d ∷ es) e h found = taken-found n es e h.1 found

commit_found-IsBounded :
    (now : ℕ) (publish : OutboxEvent → Option (List ℕ)) (s : Slot)
    → (found : Option OutboxEvent) (rest : List OutboxEvent) → IsBounded s
    → All (IsLoaded s.row.max_retries) rest
    → ((e : OutboxEvent) → found ≡ some e → IsLoaded s.row.max_retries e)
    → IsBounded (commit_found now publish s (found, rest))
unfolding commit_found
commit_found-IsBounded now publish s none rest b r l = record { retries = b.retries; loaded = r }
commit_found-IsBounded now publish s (some e) rest b r l =
    let (within, maximum) = publish_event-IsWritten now publish e s.row (l e refl) b.retries in
    record { retries = within; loaded = rw maximum r }

busy : (b : Bool) (e : OutboxEvent) (es : List OutboxEvent) → (b && is_empty (e ∷ es)) ≡ false
busy true e es = refl
busy false e es = refl

commit-IsKept :
    (which now : ℕ) (publish : OutboxEvent → Option (List ℕ)) (row : OutboxEvent)
    (loaded : List OutboxEvent)
    → IsBounded record { row = row; loaded = loaded }
    → IsKept
        record { row = row; loaded = loaded }
        (commit which now publish record { row = row; loaded = loaded })
unfolding commit commit_found taken
commit-IsKept which now publish row [] b = IsKept-refl _ b
commit-IsKept which now publish row (e ∷ es) b = record {
  bounded =
      commit_found-IsBounded now publish record { row = row; loaded = e ∷ es }
        (taken which (e ∷ es)).0 (taken which (e ∷ es)).1 b
        (taken-All (IsLoaded row.max_retries) which (e ∷ es) b.loaded)
        (λ d found. taken-found (IsLoaded row.max_retries) which (e ∷ es) d b.loaded found);
  rests = inl (busy (is_final row.status) e es);
}

stop-IsKept :
    (which : ℕ) (row : OutboxEvent) (loaded : List OutboxEvent)
    → IsBounded record { row = row; loaded = loaded }
    → IsKept
        record { row = row; loaded = loaded }
        (stop which record { row = row; loaded = loaded })
unfolding stop taken
stop-IsKept which row [] b = IsKept-refl _ b
stop-IsKept which row (e ∷ es) b = record {
  bounded = record {
    retries = b.retries;
    loaded = taken-All (IsLoaded row.max_retries) which (e ∷ es) b.loaded;
  };
  rests = inl (busy (is_final row.status) e es);
}

active-not_final : (e : OutboxEvent) → e.status ≡ processing → is_final e.status ≡ false
active-not_final e h = rw h refl

loaded-IsBounded :
    (s : Slot)
    → IsBounded s
    → s.row.status ≡ processing
    → IsBounded (record s { loaded = s.row ∷ s.loaded })
loaded-IsBounded s b active =
    let within : s.row.retry_count < s.row.max_retries = (let w = b.retries in rw active at w) in
    record {
      retries = b.retries;
      loaded = (record { status = active; same_maximum = refl; below = within }, b.loaded);
    }

load-IsKept : (s : Slot) → IsBounded s → IsKept s (load s)
unfolding load
load-IsKept s b = elim (Bool-cases (is_processing s.row.status)) [
  | inl active ↦
      let processed : s.row.status ≡ processing = ground arith in
      rw active
        (record { bounded = loaded-IsBounded s b processed; rests = inl (rw processed refl) })
  | inr other ↦ rw other (IsKept-refl s b)
]

at_event-AreKept :
    (key : ℕ) (change : Slot → Slot) (ss : List Slot)
    → ((s : Slot) → IsBounded s → IsKept s (change s))
    → All IsBounded ss
    → AreKept ss (at_event key change ss)
unfolding at_event
at_event-AreKept key change [] keeps b = tt
at_event-AreKept key change (s ∷ ss) keeps b = elim (Bool-cases (s.row.event_id == key)) [
  | inl found ↦ rw found (keeps s b.0, AreKept-refl ss b.1)
  | inr other ↦ rw other (IsKept-refl s b.0, at_event-AreKept key change ss keeps b.1)
]

worker_step-AreKept :
    (step : WorkerStep) (ss : List Slot) → All IsBounded ss → AreKept ss (worker_step step ss)
unfolding worker_step
worker_step-AreKept (claims is_locked now timeout batch) ss b =
    passed-AreKept ss _ b (claim_pending_events-ArePassed is_locked now timeout batch (rows_of ss))
worker_step-AreKept (loads event_id) ss b = at_event-AreKept event_id load ss load-IsKept b
worker_step-AreKept (commits event_id which now publish) ss b =
    at_event-AreKept event_id (commit which now publish) ss
      (λ s k. commit-IsKept which now publish s.row s.loaded k) b
worker_step-AreKept (stops event_id which) ss b =
    at_event-AreKept event_id (stop which) ss (λ s k. stop-IsKept which s.row s.loaded k) b

-- However the transactions of any workers follow each other, where every event has retries within its
-- maximum and each publication in progress has read its own event while it was claimed: no event is
-- retried beyond its maximum, which a failed one has used up and a claimed or pending one has not, and
-- an event that was sent or has failed stays exactly as it was if no publication in progress has read it.
pub run_steps-AreKept :
    (steps : List WorkerStep) (slots : List Slot)
    → All IsBounded slots
    → AreKept slots (run_steps steps slots)
unfolding run_steps
run_steps-AreKept [] slots b = AreKept-refl slots b
run_steps-AreKept (step ∷ rest) slots b =
    let first = worker_step-AreKept step slots b in
    AreKept-trans slots (worker_step step slots) _ first
      (run_steps-AreKept rest (worker_step step slots) (AreKept-IsBounded slots _ first))
