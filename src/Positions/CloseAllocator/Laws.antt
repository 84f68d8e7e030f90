-- ===== src/Positions/CloseAllocator/Laws.antt =====
-- The allocator as a whole.
use sim_trade.Prelude.{ℕ, ◌≡◌, ◌⊎◌, inl, inr, refl, false, List, arith, All, ap, ◌∙◌}
use sim_trade.Prelude.Int.{ℤ, pos, ◌<ℤ◌, ◌≤ℤ◌, int_laws, leb_ℤ, pos_part, neg_part, eq_of_parts}
use sim_trade.Errors.{ErrorCode, ok, err}
use sim_trade.Enums.{OffsetFlag, open_flag}
use sim_trade.Positions.CloseAllocator.{
  Detail, PositionFreezePlan, candidates, take_from, finish, allocate,
}
use sim_trade.Positions.CloseAllocator.Greedy.{
  sum_plans, IsPlan, IsFifo, IsTaken, take_from-IsTaken,
}
use sim_trade.Positions.CloseAllocator.Queue.{IsQueue, queue, queue-IsAvailable, insufficient_code}
use sim_trade.Positions.CloseAllocator.Order.{may_close, available_volume}

-- What an allocation of `volume` gives back.
pub record IsAllocated (flag : OffsetFlag) (day : ℕ) (details : List Detail) (volume : ℤ)
    (plans : List PositionFreezePlan) : Type 0 where
  pub cs : List Detail
  pub queue : IsQueue flag day details cs
  pub sums : sum_plans plans ≡ volume
  pub each : All (IsPlan day) plans
  pub fifo : IsFifo cs plans

finish-short :
    (code : ErrorCode) (out : List PositionFreezePlan × ℤ)
    → pos 0 <ℤ out.1
    → finish code out ≡ err code
unfolding finish
finish-short code (plans, left) h = ground arith

finish-done :
    (code : ErrorCode) (out : List PositionFreezePlan × ℤ)
    → out.1 ≡ pos 0
    → finish code out ≡ ok out.0
unfolding finish
finish-done code (plans, left) h = rw h refl

allocate_steps :
    (details cs : List Detail) (flag : OffsetFlag) (day : ℕ) (volume : ℤ) (code : ErrorCode)
    → candidates flag day details ≡ ok (cs, code)
    → pos 0 <ℤ volume
    → allocate details flag day volume ≡ finish code (take_from day cs volume)
unfolding allocate
allocate_steps details cs flag day volume code e h =
    let tested : leb_ℤ volume (pos 0) ≡ false = ground arith in rw (tested, e) refl

full-IsAllocated :
    (flag : OffsetFlag) (day : ℕ) (details cs : List Detail) (volume : ℤ)
    → (out : List PositionFreezePlan × ℤ) → IsQueue flag day details cs
    → IsTaken day cs volume out
    → out.1 ≡ pos 0
    → IsAllocated flag day details volume out.0
full-IsAllocated flag day details cs volume (plans, left) q t e = record {
  cs = cs;
  queue = q;
  sums =
      eq_of_parts _ _
        (omega (int_laws, ap pos_part t.sums, ap neg_part t.sums, ap pos_part e, ap neg_part e));
  each = t.plans;
  fifo = t.fifo;
}

-- A positive volume under a close flag is allocated in full if the closable lots have it free, and
-- otherwise the flag's own error is raised. It is allocated from the flag's queue and in its order: the
-- queue holds exactly the closable lots that have a free volume, those of before today first, each part
-- sorted by id, and every plan but the last takes all that its lot has free.
pub allocate_outcome :
    (details : List Detail) (flag : OffsetFlag) (day : ℕ) (volume : ℤ)
    → (flag ≡ open_flag → ⊥)
    → pos 0 <ℤ volume
    → ((volume ≤ℤ available_volume (may_close flag day) details)
        × ((plans : List PositionFreezePlan) × (allocate details flag day volume ≡ ok plans)
            × IsAllocated flag day details volume plans))
      ⊎ ((available_volume (may_close flag day) details <ℤ volume)
          × (allocate details flag day volume ≡ err (insufficient_code flag)))
allocate_outcome details flag day volume hf hv =
    let (cs, e, q) = queue flag day details hf in
    let out = take_from day cs volume in
    let t = take_from-IsTaken day cs volume (queue-IsAvailable flag day details cs q) hv in
    let steps = allocate_steps details cs flag day volume (insufficient_code flag) e hv in
    elim t.left [
      | inl (done, enough) ↦ inl (
        rw (← q.volume) enough,
        (
          out.0,
          steps ∙ finish-done (insufficient_code flag) out done,
          full-IsAllocated flag day details cs volume out q t done,
        ),
      )
      | inr (rest, short) ↦ inr (
        rw (← q.volume) short,
        steps
            ∙ finish-short (insufficient_code flag) out
                (omega (int_laws, ap pos_part rest, ap neg_part rest)),
      )
    ]
