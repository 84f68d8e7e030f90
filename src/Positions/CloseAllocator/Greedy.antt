-- ===== src/Positions/CloseAllocator/Greedy.antt =====
-- The loop of the allocator: it takes the candidates in order, each in full but the last.
use sim_trade.Prelude.{
  ℕ, ◌≡◌, ◌⊎◌, inl, inr, refl, true, false, List, [], ◌∷◌, arith, All, Bool-cases, ap,
}
use sim_trade.Prelude.Int.{
  ℤ, pos, pos_part, neg_part, ◌+ℤ◌, ◌-ℤ◌, ◌≤ℤ◌, ◌<ℤ◌, eq_of_parts, int_laws, leb_ℤ, min_ℤ, ltb_ℤ,
  eqb_ℤ,
}
use sim_trade.Positions.CloseAllocator.{
  Detail, PositionFreezePlan, free_volume, resolve_flag, plan, add_plan, take_from,
}

abbrev pub IsAvailable : Detail → Type 0
IsAvailable d = pos 0 <ℤ free_volume d

unfoldable pub sum_free : List Detail → ℤ
sum_free [] = pos 0
sum_free (d ∷ rest) = free_volume d +ℤ sum_free rest

abbrev pub sum_plans : List PositionFreezePlan → ℤ
sum_plans [] = pos 0
sum_plans (p ∷ rest) = p.volume +ℤ sum_plans rest

-- Each plan takes a positive part of what its detail has free, and says whether that opened today.
pub record IsPlan (day : ℕ) (p : PositionFreezePlan) : Type 0 where
  pub positive : pos 0 <ℤ p.volume
  pub within : p.volume ≤ℤ free_volume p.detail
  pub flag : p.resolved_offset_flag ≡ resolve_flag day p.detail

-- The plans follow the candidates from the first on, and all but the last plan take the whole of
-- their detail.
abbrev pub IsFifo : List Detail → List PositionFreezePlan → Type 0
IsFifo cs [] = Unit
IsFifo [] (p ∷ ps) = ⊥
IsFifo (d ∷ cs) (p ∷ []) = p.detail ≡ d
IsFifo (d ∷ cs) (p ∷ q ∷ ps) = (p.detail ≡ d) × (p.volume ≡ free_volume d) × IsFifo cs (q ∷ ps)

min_left : (a b : ℤ) → a <ℤ b → min_ℤ a b ≡ a
min_left a b h = ground arith

min_right : (a b : ℤ) → b ≤ℤ a → min_ℤ a b ≡ b
min_right a b h = ground (arith, eq_of_parts a b)

ltb_pos : (a : ℤ) → pos 0 <ℤ a → ltb_ℤ (pos 0) a ≡ true
ltb_pos a h = ground arith

self_minus : (a : ℤ) → a -ℤ a ≡ pos 0
self_minus a = omega int_laws

ne_zero : (a : ℤ) → pos 0 <ℤ a → eqb_ℤ a (pos 0) ≡ false
ne_zero a h = ground arith

take_last :
    (day : ℕ) (d : Detail) (rest : List Detail) (r : ℤ)
    → pos 0 <ℤ r
    → r ≤ℤ free_volume d
    → take_from day (d ∷ rest) r ≡ (plan day d r ∷ [], pos 0)
unfolding take_from
take_last day d rest r hr h = rw (min_right (free_volume d) r h, ltb_pos r hr, self_minus r) refl

take_all :
    (day : ℕ) (d : Detail) (rest : List Detail) (r : ℤ)
    → IsAvailable d
    → free_volume d <ℤ r
    → take_from day (d ∷ rest) r
      ≡ add_plan (plan day d (free_volume d)) (take_from day rest (r -ℤ free_volume d))
unfolding take_from
take_all day d rest r hd h =
    rw
      (
        min_left (free_volume d) r h,
        ltb_pos (free_volume d) hd,
        ne_zero (r -ℤ free_volume d) (omega int_laws),
      )
      refl

-- What the loop has done with the candidates `cs` to find the volume `r`.
pub record IsTaken (day : ℕ) (cs : List Detail) (r : ℤ) (out : List PositionFreezePlan × ℤ)
    : Type 0 where
  pub sums : sum_plans out.0 +ℤ out.1 ≡ r
  pub plans : All (IsPlan day) out.0
  pub fifo : IsFifo cs out.0
  pub left :
      ((out.1 ≡ pos 0) × (r ≤ℤ sum_free cs)) ⊎ ((out.1 ≡ r -ℤ sum_free cs) × (sum_free cs <ℤ r))

IsFifo-cons :
    (d : Detail) (cs : List Detail) (p : PositionFreezePlan) (ps : List PositionFreezePlan)
    → p.detail ≡ d
    → p.volume ≡ free_volume d
    → IsFifo cs ps
    → IsFifo (d ∷ cs) (p ∷ ps)
IsFifo-cons d cs p [] e v h = e
IsFifo-cons d cs p (q ∷ ps) e v h = (e, v, h)

sum_free_nonneg : (cs : List Detail) → All IsAvailable cs → pos 0 ≤ℤ sum_free cs
unfolding sum_free
sum_free_nonneg [] h = omega arith
sum_free_nonneg (d ∷ cs) h = omega (int_laws, h.0, sum_free_nonneg cs h.1)

plan-IsPlan :
    (day : ℕ) (d : Detail) (v : ℤ) → pos 0 <ℤ v → v ≤ℤ free_volume d → IsPlan day (plan day d v)
unfolding plan
plan-IsPlan day d v h k = record { positive = h; within = k; flag = refl }

take_from-nil : (day : ℕ) (r : ℤ) → pos 0 <ℤ r → IsTaken day [] r (take_from day [] r)
unfolding take_from sum_free
take_from-nil day r h = record {
  sums = omega int_laws;
  plans = tt;
  fifo = tt;
  left = inr (omega int_laws, h);
}

last-IsTaken :
    (day : ℕ) (d : Detail) (cs : List Detail) (r : ℤ)
    → All IsAvailable cs
    → pos 0 <ℤ r
    → r ≤ℤ free_volume d
    → IsTaken day (d ∷ cs) r (plan day d r ∷ [], pos 0)
unfolding plan sum_free
last-IsTaken day d cs r h hr k = record {
  sums = omega int_laws;
  plans = (record { positive = hr; within = k; flag = refl }, tt);
  fifo = refl;
  left = inl (refl, omega (int_laws, sum_free_nonneg cs h));
}

left_after :
    (day : ℕ) (d : Detail) (cs : List Detail) (r left : ℤ)
    → ((left ≡ pos 0) × (r -ℤ free_volume d ≤ℤ sum_free cs))
      ⊎ ((left ≡ r -ℤ free_volume d -ℤ sum_free cs) × (sum_free cs <ℤ r -ℤ free_volume d))
    → ((left ≡ pos 0) × (r ≤ℤ sum_free (d ∷ cs)))
      ⊎ ((left ≡ r -ℤ sum_free (d ∷ cs)) × (sum_free (d ∷ cs) <ℤ r))
unfolding sum_free
left_after day d cs r left (inl (e, h)) = inl (e, omega int_laws)
left_after day d cs r left (inr (e, h)) = inr (rw e (omega int_laws), omega int_laws)

cons-IsTaken :
    (day : ℕ) (d : Detail) (cs : List Detail) (r : ℤ) (later : List PositionFreezePlan × ℤ)
    → IsAvailable d
    → IsTaken day cs (r -ℤ free_volume d) later
    → IsTaken day (d ∷ cs) r (add_plan (plan day d (free_volume d)) later)
unfolding plan
cons-IsTaken day d cs r (ps, left) hd t = record {
  sums = eq_of_parts _ _ (omega (int_laws, ap pos_part t.sums, ap neg_part t.sums));
  plans = (record { positive = hd; within = omega arith; flag = refl }, t.plans);
  fifo = IsFifo-cons d cs (plan day d (free_volume d)) ps refl refl t.fifo;
  left = left_after day d cs r left t.left;
}

-- The loop finds what is asked for exactly if the candidates have it, in their order.
pub take_from-IsTaken :
    (day : ℕ) (cs : List Detail) (r : ℤ)
    → All IsAvailable cs
    → pos 0 <ℤ r
    → IsTaken day cs r (take_from day cs r)
take_from-IsTaken day [] r h hr = take_from-nil day r hr
take_from-IsTaken day (d ∷ cs) r h hr = elim (Bool-cases (leb_ℤ r (free_volume d))) [
  | inl fits ↦
      let enough : r ≤ℤ free_volume d = ground arith in
      rw (take_last day d cs r hr enough) (last-IsTaken day d cs r h.1 hr enough)
  | inr short ↦
      let less : free_volume d <ℤ r = ground arith in
      rw (take_all day d cs r h.0 less) (
        cons-IsTaken day d cs r (take_from day cs (r -ℤ free_volume d)) h.0
          (take_from-IsTaken day cs (r -ℤ free_volume d) h.1 (omega int_laws)))
]
