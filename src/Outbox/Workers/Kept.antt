-- ===== src/Outbox/Workers/Kept.antt =====
-- What is kept of an event, and that a claim keeps it.
use sim_trade.Prelude.{
  ℕ, ◌<◌, ◌≤◌, ◌≡◌, ◌⊎◌, inl, inr, refl, Bool, true, false, not, ◌&&◌, ◌-◌, List, [], ◌∷◌, ◌==◌,
  All, arith, if◌then◌else◌,
}
use sim_trade.Outbox.{
  OutboxStatus, pending, processing, sent, failed, OutboxEvent, is_due, claimed, claim_row,
  claim_pending_events,
}
use sim_trade.Outbox.Workers.{Slot, rows_of, with_rows}

-- The retries that an event may have had: fewer than its maximum while it may be published, at most
-- that many once it was sent, and exactly as many when it has failed.
abbrev pub IsWithin : OutboxStatus → ℕ → ℕ → Type 0
IsWithin pending n max_retries = n < max_retries
IsWithin processing n max_retries = n < max_retries
IsWithin sent n max_retries = n ≤ max_retries
IsWithin failed n max_retries = n ≡ max_retries

-- A publication in progress has read a claimed event.
pub record IsLoaded (max_retries : ℕ) (e : OutboxEvent) : Type 0 where
  pub status : e.status ≡ processing
  pub same_maximum : e.max_retries ≡ max_retries
  pub below : e.retry_count < max_retries

pub record IsBounded (s : Slot) : Type 0 where
  pub retries : IsWithin s.row.status s.row.retry_count s.row.max_retries
  pub loaded : All (IsLoaded s.row.max_retries) s.loaded

abbrev pub is_final : OutboxStatus → Bool
is_final sent = true
is_final failed = true
is_final _ = false

abbrev pub is_empty : List OutboxEvent → Bool
is_empty [] = true
is_empty (e ∷ es) = false

-- An event that was sent or has failed, and that no publication in progress has read.
abbrev pub is_at_rest : Slot → Bool
is_at_rest s = is_final s.row.status && is_empty s.loaded

pub record IsKept (s t : Slot) : Type 0 where
  pub bounded : IsBounded t
  pub rests : (is_at_rest s ≡ false) ⊎ (t ≡ s)

abbrev pub AreKept : List Slot → List Slot → Type 0
AreKept [] [] = Unit
AreKept (s ∷ ss) (t ∷ ts) = IsKept s t × AreKept ss ts
AreKept [] (t ∷ ts) = ⊥
AreKept (s ∷ ss) [] = ⊥

pub IsKept-refl : (s : Slot) → IsBounded s → IsKept s s
IsKept-refl s b = record { bounded = b; rests = inr refl }

pub AreKept-refl : (ss : List Slot) → All IsBounded ss → AreKept ss ss
AreKept-refl [] b = tt
AreKept-refl (s ∷ ss) b = (IsKept-refl s b.0, AreKept-refl ss b.1)

IsKept-trans : (s t u : Slot) → IsKept s t → IsKept t u → IsKept s u
IsKept-trans s t u f g = record {
  bounded = g.bounded;
  rests = elim f.rests [
    | inl moving ↦ inl moving
    | inr same ↦ elim g.rests [
      | inl moving ↦ inl (rw same at moving)
      | inr again ↦ inr (rw (again, same) refl)
    ]
  ];
}

pub AreKept-trans : (ss ts us : List Slot) → AreKept ss ts → AreKept ts us → AreKept ss us
AreKept-trans [] [] [] f g = tt
AreKept-trans (s ∷ ss) (t ∷ ts) (u ∷ us) f g =
    (IsKept-trans s t u f.0 g.0, AreKept-trans ss ts us f.1 g.1)
AreKept-trans [] [] (u ∷ us) f g = g
AreKept-trans [] (t ∷ ts) us f g = absurd f
AreKept-trans (s ∷ ss) [] us f g = absurd f
AreKept-trans (s ∷ ss) (t ∷ ts) [] f g = absurd g

pub AreKept-IsBounded : (ss ts : List Slot) → AreKept ss ts → All IsBounded ts
AreKept-IsBounded [] [] f = tt
AreKept-IsBounded (s ∷ ss) (t ∷ ts) f = (f.0.bounded, AreKept-IsBounded ss ts f.1)
AreKept-IsBounded [] (t ∷ ts) f = absurd f
AreKept-IsBounded (s ∷ ss) [] f = absurd f

-- A claim leaves a row alone, or takes it when it is due.
abbrev pub IsPassed : OutboxEvent → OutboxEvent → Type 0
IsPassed e f =
    (f ≡ e) ⊎ ((now : ℕ) × (timeout : ℕ) × (is_due now e ≡ true) × (f ≡ claimed now timeout e))

abbrev pub ArePassed : List OutboxEvent → List OutboxEvent → Type 0
ArePassed [] [] = Unit
ArePassed (e ∷ es) (f ∷ fs) = IsPassed e f × ArePassed es fs
ArePassed [] (f ∷ fs) = ⊥
ArePassed (e ∷ es) [] = ⊥

claim_row-ArePassed :
    (take : Bool) (now timeout : ℕ) (e : OutboxEvent) (rest : List OutboxEvent)
    → (out : List OutboxEvent × List OutboxEvent) → (take ≡ true → is_due now e ≡ true)
    → ArePassed rest out.0
    → ArePassed (e ∷ rest) (claim_row take now timeout e out).0
unfolding claim_row
claim_row-ArePassed true now timeout e rest (rows, events) due r =
    (inr (now, timeout, due refl, refl), r)
claim_row-ArePassed false now timeout e rest (rows, events) due r = (inl refl, r)

pub claim_pending_events-ArePassed :
    (is_locked : ℕ → Bool) (now timeout batch : ℕ) (rows : List OutboxEvent)
    → ArePassed rows (claim_pending_events is_locked now timeout batch rows).0
unfolding claim_pending_events
claim_pending_events-ArePassed is_locked now timeout batch [] = tt
claim_pending_events-ArePassed is_locked now timeout batch (e ∷ rest) =
    let due = is_due now e && (not (is_locked e.event_id) && not (batch == 0)) in
    let left = if due then batch - 1 else batch in
    claim_row-ArePassed due now timeout e rest
      (claim_pending_events is_locked now timeout left rest) (λ h. ground arith)
      (claim_pending_events-ArePassed is_locked now timeout left rest)

claimed-IsKept :
    (s : Slot) (now timeout : ℕ)
    → IsBounded s
    → is_due now s.row ≡ true
    → IsKept s (record s { row = claimed now timeout s.row })
unfolding is_due claimed
claimed-IsKept s now timeout b due =
    let retries = b.retries in
    record {
      bounded = record { retries = ground arith; loaded = b.loaded };
      rests = inl (ground arith);
    }

passed-IsKept :
    (s : Slot) (f : OutboxEvent) → IsBounded s → IsPassed s.row f → IsKept s (record s { row = f })
passed-IsKept s f b (inl same) = rw same (IsKept-refl s b)
passed-IsKept s f b (inr (now, timeout, due, same)) = rw same (claimed-IsKept s now timeout b due)

pub passed-AreKept :
    (ss : List Slot) (fs : List OutboxEvent)
    → All IsBounded ss
    → ArePassed (rows_of ss) fs
    → AreKept ss (with_rows fs ss)
unfolding rows_of with_rows
passed-AreKept [] [] b p = tt
passed-AreKept [] (f ∷ fs) b p = absurd p
passed-AreKept (s ∷ ss) [] b p = absurd p
passed-AreKept (s ∷ ss) (f ∷ fs) b p = (passed-IsKept s f b.0 p.0, passed-AreKept ss fs b.1 p.1)
