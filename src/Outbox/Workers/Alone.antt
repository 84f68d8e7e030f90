-- ===== src/Outbox/Workers/Alone.antt =====
-- A round of a worker that no other interferes with, as a sequence of transactions.
use sim_trade.Prelude.{ℕ, List, [], ◌∷◌}
use sim_trade.Outbox.{OutboxEvent, claim_pending_events, Round}
use sim_trade.Outbox.Workers.{Slot, WorkerStep, claims, loads, commits}

-- The table when no publication is in progress.
unfoldable pub idle : List OutboxEvent → List Slot
idle [] = []
idle (e ∷ rest) = record { row = e; loaded = [] } ∷ idle rest

-- The transactions of the publications of a round, each committed before the next one is read.
pub publications : Round → List OutboxEvent → List WorkerStep
publications r [] = []
publications r (e ∷ events) =
    loads e.event_id ∷ commits e.event_id 0 (r.clock e.event_id) r.publish ∷ publications r events

-- The transactions of a round.
pub round_steps : ℕ → ℕ → Round → List OutboxEvent → List WorkerStep
unfolding publications
round_steps batch timeout r rows =
    claims r.is_locked r.now timeout batch
    ∷ publications r (claim_pending_events r.is_locked r.now timeout batch rows).1
