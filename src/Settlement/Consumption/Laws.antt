-- ===== src/Settlement/Consumption/Laws.antt =====
-- The loop takes the volume of the fill from the allocations, and nothing else.
use sim_trade.Prelude.{◌≡◌, refl, inl, inr, not, ◌||◌, List, [], ◌∷◌, All, arith, Bool-cases}
use sim_trade.Prelude.Int.{
  ℤ, pos, ◌+ℤ◌, ◌-ℤ◌, ◌≤ℤ◌, ◌<ℤ◌, leb_ℤ, eqb_ℤ, min_ℤ, eq_of_parts, int_laws,
}
use sim_trade.Errors.{ok, raise_if, Ensures, ok-Ensures, if-Ensures, >>=-Ensures, >>-Ensures}
use sim_trade.Money.{same_decimal, is_nonpositive}
use sim_trade.Positions.MarginRelease.{release_margin}
use sim_trade.Positions.MarginRelease.Laws.{release_margin_bounds, share_bounds, IsClosing-of_ok}
use sim_trade.Positions.Pnl.{calculate, calculate_close}
use sim_trade.Settlement.Rows.{AllocationRow, LotRow}
use sim_trade.Settlement.Consumption.{
  Fill, CloseConsumption, lot_of, realtime_part, consume_one, consume,
}

-- The volume that the allocations still hold.
abbrev pub frozen_volume_of : List AllocationRow → ℤ
frozen_volume_of [] = pos 0
frozen_volume_of (a ∷ rest) = a.remaining_frozen_volume +ℤ frozen_volume_of rest

abbrev pub volume_of : List CloseConsumption → ℤ
volume_of [] = pos 0
volume_of (c ∷ rest) = c.volume +ℤ volume_of rest

-- What the validation has found of an allocation.
pub record IsUsable (a : AllocationRow) : Type 0 where
  pub volume : pos 0 ≤ℤ a.remaining_frozen_volume
  pub commission : pos 0 ≤ℤ a.remaining_frozen_commission

-- A consumption takes no more than its allocation and its lot have.
pub record IsShare (c : CloseConsumption) : Type 0 where
  pub positive : pos 0 <ℤ c.volume
  pub of_allocation : c.volume ≤ℤ c.allocation.remaining_frozen_volume
  pub of_lot : c.volume ≤ℤ c.detail.remaining_volume
  pub margin : (pos 0 ≤ℤ c.released_margin) × (c.released_margin ≤ℤ c.detail.remaining_margin)
  pub commission :
      (pos 0 ≤ℤ c.released_frozen_commission)
      × (c.released_frozen_commission ≤ℤ c.allocation.remaining_frozen_commission)

abbrev pub Shares : List LotRow → AllocationRow → ℤ → CloseConsumption → Type 0
Shares lots a taken c =
    IsShare c
    × (c.volume ≡ taken)
    × (c.allocation ≡ a)
    × (lot_of a.position_detail_id lots ≡ ok c.detail)

pub consume_one-Shares :
    (f : Fill) (a : AllocationRow) (taken : ℤ)
    → IsUsable a
    → pos 0 <ℤ taken
    → taken ≤ℤ a.remaining_frozen_volume
    → Ensures (Shares f.lots a taken) (consume_one f a taken)
unfolding consume_one
consume_one-Shares f a taken h low high = >>=-Ensures (lot_of a.position_detail_id f.lots) (λ l el.
    >>-Ensures
      (raise_if
        (is_nonpositive l.multiplier_snapshot
          || not (same_decimal l.multiplier_snapshot f.position_multiplier))
        _)
      (λ _. >>=-Ensures (release_margin l.remaining_margin taken l.remaining_volume) (λ margin em.
        >>=-Ensures (realtime_part f.is_option l taken) (λ realtime _.
          >>=-Ensures
            (calculate f.order_direction l.open_price f.fill_price taken l.multiplier_snapshot)
            (λ realized _.
              >>=-Ensures
                (calculate_close f.position_direction f.fill_price l.open_price l.pnl_base_price
                  taken l.multiplier_snapshot)
                (λ daily _. ok-Ensures (Shares f.lots a taken) _ (
                  record {
                    positive = low;
                    of_allocation = high;
                    of_lot =
                        (IsClosing-of_ok l.remaining_margin taken l.remaining_volume margin
                          em).0.close_within;
                    margin =
                        let (m0, m1, _) =
                          release_margin_bounds l.remaining_margin taken l.remaining_volume margin
                            em in
                        (m0, m1);
                    commission =
                        share_bounds a.remaining_frozen_commission taken a.remaining_frozen_volume
                          (record {
                            margin_nonneg = h.commission;
                            close_pos = low;
                            close_within = high;
                          });
                  },
                  refl,
                  refl,
                  el,
                )))))))

pub frozen_volume_nonneg :
    (allocations : List AllocationRow)
    → All IsUsable allocations
    → pos 0 ≤ℤ frozen_volume_of allocations
frozen_volume_nonneg [] h = omega arith
frozen_volume_nonneg (a ∷ rest) (ha, h) =
    let low = ha.volume in let others = frozen_volume_nonneg rest h in omega int_laws

-- What the next allocation does not cover is covered by those after it.
pub rest_covers :
    (a n total : ℤ)
    → pos 0 ≤ℤ total
    → pos 0 ≤ℤ n
    → n ≤ℤ a +ℤ total
    → (pos 0 ≤ℤ n -ℤ min_ℤ a n) × (n -ℤ min_ℤ a n ≤ℤ total)
rest_covers a n total ht hn h = elim (Bool-cases (leb_ℤ a n)) [
  | inl part ↦ rw part (let less : a ≤ℤ n = ground arith in (omega int_laws, omega int_laws))
  | inr whole ↦ rw whole (omega int_laws, omega int_laws)
]

-- What holds of each allocation with the lot that it names.
abbrev pub HoldsOf : (AllocationRow → LotRow → Type 0) → List LotRow → List AllocationRow → Type 0
HoldsOf P lots = All (λ a. (l : LotRow) → lot_of a.position_detail_id lots ≡ ok l → P a l)

-- All of the volume is taken, in shares.
abbrev pub Taken : (AllocationRow → LotRow → Type 0) → ℤ → ℤ × List CloseConsumption → Type 0
Taken P n (left, cs) =
    (left ≡ pos 0) × (volume_of cs ≡ n) × All IsShare cs × All (λ c. P c.allocation c.detail) cs

pub consume-Taken :
    (P : AllocationRow → LotRow → Type 0) (f : Fill) (allocations : List AllocationRow) (n : ℤ)
    → HoldsOf P f.lots allocations
    → All IsUsable allocations
    → pos 0 ≤ℤ n
    → n ≤ℤ frozen_volume_of allocations
    → Ensures (Taken P n) (consume f allocations n)
unfolding consume
consume-Taken P f [] n k h low high =
    ok-Ensures (Taken P n) _ (eq_of_parts _ _ (omega arith), eq_of_parts _ _ (omega arith), tt, tt)
consume-Taken P f (a ∷ rest) n (ka, k) (ha, h) low high =
    let taken = min_ℤ a.remaining_frozen_volume n in
    let (r0, r1) =
      rest_covers a.remaining_frozen_volume n (frozen_volume_of rest) (frozen_volume_nonneg rest h)
        low high in
    if-Ensures {test = eqb_ℤ n (pos 0)}
      (λ done.
        ok-Ensures (Taken P n) _
          (eq_of_parts _ _ (ground arith), eq_of_parts _ _ (ground arith), tt, tt))
      (λ more.
        if-Ensures {test = leb_ℤ a.remaining_frozen_volume (pos 0)}
          (λ empty.
            consume-Taken P f rest n k h low
              (let none_held : a.remaining_frozen_volume ≤ℤ pos 0 = ground arith in omega int_laws))
          (λ held. >>=-Ensures (consume_one f a taken) (λ c e.
            let (share, same, from, at) =
              (consume_one-Shares f a taken ha (ground arith) (ground arith)).ensured e in
            >>=-Ensures (consume f rest (n -ℤ taken)) (λ last el.
              let (left, sum, shares, kept) =
                (consume-Taken P f rest (n -ℤ taken) k h r0 r1).ensured el in
              ok-Ensures (Taken P n) _ (
                left,
                rw (sum, same) (omega int_laws),
                (share, shares),
                (rw from (ka c.detail at), kept),
              )))))

pub trivially :
    (lots : List LotRow) (rows : List AllocationRow) → HoldsOf (λ _ _. Unit {0}) lots rows
trivially lots [] = tt
trivially lots (a ∷ rest) = (λ l e. tt, trivially lots rest)

-- What holds of the allocations, whatever lots they name.
pub whatever_lot :
    (P : AllocationRow → Type 0) (lots : List LotRow) (rows : List AllocationRow)
    → All P rows
    → HoldsOf (λ a _. P a) lots rows
whatever_lot P lots [] h = tt
whatever_lot P lots (a ∷ rest) (ha, h) = (λ l e. ha, whatever_lot P lots rest h)

-- Where the allocations hold the volume of the fill, the loop leaves nothing of it, so the error for a
-- fill that is not fully consumed cannot come; its parts add up to the fill, and none takes more volume,
-- margin or frozen commission than its allocation and its lot have.
pub consume_takes :
    (f : Fill) (allocations : List AllocationRow) (n left : ℤ) (cs : List CloseConsumption)
    → All IsUsable allocations
    → pos 0 ≤ℤ n
    → n ≤ℤ frozen_volume_of allocations
    → consume f allocations n ≡ ok (left, cs)
    → (left ≡ pos 0) × (volume_of cs ≡ n) × All IsShare cs
consume_takes f allocations n left cs h low high e =
    let (done, sum, shares, _) =
      (consume-Taken (λ _ _. Unit {0}) f allocations n (trivially f.lots allocations) h low
          high).ensured
        e in
    (done, sum, shares)
