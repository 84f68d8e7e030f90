-- ===== src/Outbox/Workers/Updates.antt =====
-- What an UPDATE makes of the row that was read: the changed columns are compared column by column.
use sim_trade.Prelude.{
  ℕ, ◌+◌, leb, ◌≡◌, inl, inr, refl, ap, sym, Bool, true, false, Option, none, some, List, [], ◌∷◌,
  ◌==◌, arith, Bool-cases, if◌then◌else◌,
}
use sim_trade.Outbox.{
  OutboxStatus, OutboxEvent, is_processing, mark_sent, mark_retry, answered, publish_event,
}
use sim_trade.Outbox.Workers.{same_status, same_time, same_text, same_error, updated}

same_status-eq : (s t : OutboxStatus) → same_status s t ≡ true → s ≡ t
same_status-eq s t h = ground arith

same_time-eq : (s t : Option ℕ) → same_time s t ≡ true → s ≡ t
same_time-eq none none h = refl
same_time-eq (some t) (some u) h = ap some (ground arith)
same_time-eq none (some u) h = absurd cc
same_time-eq (some t) none h = absurd cc

same_text-eq : (s t : List ℕ) → same_text s t ≡ true → s ≡ t
same_text-eq [] [] h = refl
same_text-eq (c ∷ cs) (d ∷ ds) h =
    let head : c ≡ d = ground arith in
    let tail : cs ≡ ds = same_text-eq cs ds (ground arith) in rw (head, tail) refl
same_text-eq [] (d ∷ ds) h = absurd cc
same_text-eq (c ∷ cs) [] h = absurd cc

same_error-eq : (s t : Option (List ℕ)) → same_error s t ≡ true → s ≡ t
same_error-eq none none h = refl
same_error-eq (some t) (some u) h = ap some (same_text-eq t u h)
same_error-eq none (some u) h = absurd cc
same_error-eq (some t) none h = absurd cc

merged : {A : Type 0} (test : Bool) (x y : A) → (test ≡ true → x ≡ y) → (if test then x else y) ≡ y
merged true x y h = h refl
merged false x y h = refl

-- An update of the row that was read makes it what the mark has made of it.
pub updated-own :
    (e f : OutboxEvent)
    → f.event_id ≡ e.event_id
    → f.max_retries ≡ e.max_retries
    → updated e f e ≡ f
unfolding updated
updated-own e f key maximum =
    let status = merged (same_status e.status f.status) _ _ (same_status-eq e.status f.status) in
    let count = merged (e.retry_count == f.retry_count) _ _ (λ h. ground arith) in
    let time =
      merged (same_time e.next_retry_at f.next_retry_at) _ _
        (same_time-eq e.next_retry_at f.next_retry_at) in
    let sent_time = merged (same_time e.sent_at f.sent_at) _ _ (same_time-eq e.sent_at f.sent_at) in
    let error =
      merged (same_error e.last_error f.last_error) _ _ (same_error-eq e.last_error f.last_error) in
    λ i. record {
      event_id = sym key i;
      status = status i;
      retry_count = count i;
      max_retries = sym maximum i;
      next_retry_at = time i;
      sent_at = sent_time i;
      last_error = error i;
    }

answered-fixed :
    (answer : Option (List ℕ)) (now : ℕ) (e : OutboxEvent)
    → ((answered answer now e).1.event_id ≡ e.event_id)
      × ((answered answer now e).1.max_retries ≡ e.max_retries)
unfolding answered mark_sent mark_retry
answered-fixed none now e = (refl, refl)
answered-fixed (some error) now e = elim (Bool-cases (leb e.max_retries (e.retry_count + 1))) [
  | inl last ↦ rw last (refl, refl)
  | inr more ↦ rw more (refl, refl)
]

pub publish_event-fixed :
    (now : ℕ) (publish : OutboxEvent → Option (List ℕ)) (e : OutboxEvent)
    → ((publish_event now publish e).1.event_id ≡ e.event_id)
      × ((publish_event now publish e).1.max_retries ≡ e.max_retries)
unfolding publish_event
publish_event-fixed now publish e = elim (Bool-cases (is_processing e.status)) [
  | inl active ↦ rw active (answered-fixed (publish e) now e)
  | inr other ↦ rw other (refl, refl)
]
