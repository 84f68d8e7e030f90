-- ===== src/Positions/MarginRelease/Laws.antt =====
-- Partial closes release the margin of a lot in parts that never exceed it, and the last takes all.
use sim_trade.Prelude.{◌≡◌, ◌∙◌, inl, inr, refl, sym, ap, true, List, [], ◌∷◌, arith, Bool-cases}
use sim_trade.Prelude.Int.{
  ℤ, pos, pos_part, neg_part, ◌+ℤ◌, ◌-ℤ◌, ◌≤ℤ◌, ◌<ℤ◌, eqb_ℤ, eq_of_parts, int_laws,
}
use sim_trade.Errors.{Result, ok, ◌>>=◌, >>=-eq-ok, ok-injective}
use sim_trade.Money.{Money}
use sim_trade.Money.Proportion.{proportion_nonneg, proportion-le}
use sim_trade.Positions.MarginRelease.{release_margin, allocate_frozen_commission}

-- The arguments for which a release is computed.
pub record IsClosing (margin : Money) (close whole : ℤ) : Type 0 where
  pub margin_nonneg : pos 0 ≤ℤ margin
  pub close_pos : pos 0 <ℤ close
  pub close_within : close ≤ℤ whole

pub IsClosing-of_ok :
    (margin : Money) (close whole : ℤ) (r : Money)
    → release_margin margin close whole ≡ ok r
    → IsClosing margin close whole × (allocate_frozen_commission margin close whole ≡ r)
unfolding release_margin allocate_frozen_commission
IsClosing-of_ok margin close whole r h = (ground arith, ground arith)

pub eqb_ℤ→eq : (a b : ℤ) → eqb_ℤ a b ≡ true → a ≡ b
eqb_ℤ→eq a b h = ground (arith, eq_of_parts a b)

pub share_bounds :
    (margin : Money) (close whole : ℤ)
    → IsClosing margin close whole
    → (pos 0 ≤ℤ allocate_frozen_commission margin close whole)
      × (allocate_frozen_commission margin close whole ≤ℤ margin)
unfolding allocate_frozen_commission
share_bounds margin close whole c = elim (Bool-cases (eqb_ℤ close whole)) [
  | inl all ↦ rw all (c.margin_nonneg, omega arith)
  | inr part ↦ rw part (
    proportion_nonneg margin close whole c.margin_nonneg (omega arith) (omega arith),
    proportion-le margin close whole c.margin_nonneg (omega arith) (omega arith) (omega arith),
  )
]

all_of :
    (margin : Money) (close whole : ℤ)
    → close ≡ whole
    → allocate_frozen_commission margin close whole ≡ margin
unfolding allocate_frozen_commission
all_of margin close whole e =
    let same : eqb_ℤ close whole ≡ true = rw e (ground arith) in rw same refl

-- A release is between nothing and the whole margin, and it is the whole margin when the whole
-- volume is closed.
pub release_margin_bounds :
    (margin : Money) (close whole : ℤ) (r : Money)
    → release_margin margin close whole ≡ ok r
    → (pos 0 ≤ℤ r) × (r ≤ℤ margin) × (close ≡ whole → r ≡ margin)
release_margin_bounds margin close whole r h =
    let (c, e) = IsClosing-of_ok margin close whole r h in
    let (low, high) = share_bounds margin close whole c in
    (rw e at low, rw e at high, λ same. sym e ∙ all_of margin close whole same)

-- A lot that is closed in several trades: the margin released so far, and the margin and volume left.
unfoldable pub close_all : List ℤ → Money → ℤ → Result (Money × Money × ℤ)
close_all [] margin whole = ok (pos 0, margin, whole)
close_all (c ∷ rest) margin whole = do
  r ← release_margin margin c whole
  (released, left, volume) ← close_all rest (margin -ℤ r) (whole -ℤ c)
  ok (r +ℤ released, left, volume)

last_release :
    (margin : Money) (c whole : ℤ) (r : Money)
    → (c ≡ whole → r ≡ margin)
    → whole -ℤ c ≡ pos 0
    → margin -ℤ r ≡ pos 0
last_release margin c whole r all z =
    let same : c ≡ whole = eq_of_parts _ _ (omega (int_laws, ap pos_part z, ap neg_part z)) in
    rw (all same) (omega int_laws)

-- What any number of closes leaves of a lot.
pub record IsAccounted (margin : Money) (whole : ℤ) (out : Money × Money × ℤ) : Type 0 where
  pub conserved : out.0 +ℤ out.1 ≡ margin
  pub left_nonneg : pos 0 ≤ℤ out.1
  pub none_left : out.2 ≡ pos 0 → out.1 ≡ pos 0

close_all-IsAccounted :
    (cs : List ℤ) (margin : Money) (whole : ℤ) (out : Money × Money × ℤ)
    → pos 0 ≤ℤ margin
    → (whole ≡ pos 0 → margin ≡ pos 0)
    → close_all cs margin whole ≡ ok out
    → IsAccounted margin whole out
unfolding close_all
close_all-IsAccounted [] margin whole out hm hz h =
    let e = ok-injective h in
    rw (← e) (record { conserved = omega int_laws; left_nonneg = hm; none_left = hz })
close_all-IsAccounted (c ∷ cs) margin whole out hm hz h =
    let (r, er, h1) = >>=-eq-ok (release_margin margin c whole) _ h in
    let ((released, left, volume), el, h2) =
      >>=-eq-ok (close_all cs (margin -ℤ r) (whole -ℤ c)) _ h1 in
    let (low, high, all) = release_margin_bounds margin c whole r er in
    let rest =
      close_all-IsAccounted cs (margin -ℤ r) (whole -ℤ c) (released, left, volume) (omega int_laws)
        (λ z. last_release margin c whole r all z) el in
    let e = ok-injective h2 in
    rw (← e) (record {
      conserved =
          eq_of_parts _ _
            (omega (int_laws, ap pos_part rest.conserved, ap neg_part rest.conserved));
      left_nonneg = rest.left_nonneg;
      none_left = rest.none_left;
    })

-- However a lot with a positive volume is closed in full, in one trade or in many, it keeps no margin:
-- the closes have released all of it.
pub close_all_releases :
    (cs : List ℤ) (margin : Money) (whole : ℤ) (released left : Money)
    → pos 0 ≤ℤ margin
    → pos 0 <ℤ whole
    → close_all cs margin whole ≡ ok (released, left, pos 0)
    → (left ≡ pos 0) × (released ≡ margin)
close_all_releases cs margin whole released left hm hw h =
    let a =
      close_all-IsAccounted cs margin whole (released, left, pos 0) hm
        (λ z. absurd (omega (arith, ap pos_part z, ap neg_part z))) h in
    let none = a.none_left refl in
    (
      none,
      eq_of_parts _ _ (
          omega (
            int_laws,
            ap pos_part a.conserved,
            ap neg_part a.conserved,
            ap pos_part none,
            ap neg_part none,
          )),
    )
