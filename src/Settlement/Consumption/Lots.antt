-- ===== src/Settlement/Consumption/Lots.antt =====
-- What a fill takes from each lot.
use sim_trade.Prelude.{
  ℕ, ◌≤◌, ◌≡◌, ◌∙◌, refl, inl, inr, Bool, true, false, List, [], ◌∷◌, All, All-map, arith,
  Bool-cases, ◌==◌, if◌then◌else◌,
}
use sim_trade.Prelude.Int.{ℤ, pos, ◌-ℤ◌, ◌≤ℤ◌, leb_ℤ, eqb_ℤ, min_ℤ, int_laws}
use sim_trade.Errors.{Ensures, ok-Ensures, if-Ensures, >>=-Ensures}
use sim_trade.Settlement.Rows.{LotRow, AllocationRow}
use sim_trade.Settlement.Tables.{count, total, total_once, update-All, count-update}
use sim_trade.Settlement.Consumption.{
  Fill, CloseConsumption, lot_of, consume_one, consume, consumed_lot, consume_lots,
  consume_allocations, write_consumptions,
}
use sim_trade.Settlement.Consumption.Laws.{
  IsUsable, frozen_volume_of, rest_covers, frozen_volume_nonneg, consume_one-Shares,
}

-- The lot that is found has the identifier, and is one of the table.
pub lot_of-found :
    (P : LotRow → Type 0) (key : ℕ) (lots : List LotRow)
    → All P lots
    → Ensures (λ l. P l × (l.position_detail_id ≡ key)) (lot_of key lots)
unfolding lot_of
lot_of-found P key [] h = record { ensured = λ e. absurd cc }
lot_of-found P key (l ∷ rest) (hl, h) =
    if-Ensures {test = l.position_detail_id == key}
      (λ found. ok-Ensures (λ l. P l × (l.position_detail_id ≡ key)) l (hl, ground arith))
      (λ other. lot_of-found P key rest h)

-- The volume that is taken from the lot with the identifier, and that is frozen in it.
abbrev pub taken_from : ℕ → CloseConsumption → ℤ
taken_from key c = if c.detail.position_detail_id == key then c.volume else pos 0

abbrev pub frozen_in : ℕ → AllocationRow → ℤ
frozen_in key a = if a.position_detail_id == key then a.remaining_frozen_volume else pos 0

frozen_in_nonneg : (key : ℕ) (a : AllocationRow) → IsUsable a → pos 0 ≤ℤ frozen_in key a
frozen_in_nonneg key a h = let low = h.volume in ground arith

total-frozen_in_nonneg :
    (key : ℕ) (allocations : List AllocationRow)
    → All IsUsable allocations
    → pos 0 ≤ℤ total (frozen_in key) allocations
total-frozen_in_nonneg key [] h = omega arith
total-frozen_in_nonneg key (a ∷ rest) (ha, h) =
    let first = frozen_in_nonneg key a ha in
    let others = total-frozen_in_nonneg key rest h in omega int_laws

taken_from_bound :
    (key : ℕ) (a : AllocationRow) (c : CloseConsumption)
    → c.detail.position_detail_id ≡ a.position_detail_id
    → c.volume ≤ℤ a.remaining_frozen_volume
    → taken_from key c ≤ℤ frozen_in key a
taken_from_bound key a c same high = elim (Bool-cases (a.position_detail_id == key)) [
  | inl here ↦ rw (same, here) high
  | inr other ↦ rw (same, other) (omega arith)
]

anywhere : (lots : List LotRow) → All (λ _. Unit {0}) lots
anywhere [] = tt
anywhere (l ∷ rest) = (tt, anywhere rest)

abbrev pub Within : ℕ → List AllocationRow → ℤ × List CloseConsumption → Type 0
Within key allocations (left, cs) = total (taken_from key) cs ≤ℤ total (frozen_in key) allocations

-- A lot gives no more than the allocations that rest on it hold.
pub consume-Within :
    (f : Fill) (key : ℕ) (allocations : List AllocationRow) (n : ℤ)
    → All IsUsable allocations
    → pos 0 ≤ℤ n
    → n ≤ℤ frozen_volume_of allocations
    → Ensures (Within key allocations) (consume f allocations n)
unfolding consume
consume-Within f key [] n h low high = ok-Ensures (Within key []) _ (omega int_laws)
consume-Within f key (a ∷ rest) n (ha, h) low high =
    let taken = min_ℤ a.remaining_frozen_volume n in
    let held_here = frozen_in_nonneg key a ha in
    let (r0, r1) =
      rest_covers a.remaining_frozen_volume n (frozen_volume_of rest) (frozen_volume_nonneg rest h)
        low high in
    if-Ensures {test = eqb_ℤ n (pos 0)}
      (λ done. ok-Ensures (Within key (a ∷ rest)) _ (total-frozen_in_nonneg key (a ∷ rest) (ha, h)))
      (λ more.
        if-Ensures {test = leb_ℤ a.remaining_frozen_volume (pos 0)}
          (λ empty. record {
            ensured = λ e.
                let within =
                  (consume-Within f key rest n h low (
                      let none_held : a.remaining_frozen_volume ≤ℤ pos 0 = ground arith in
                      omega int_laws)).ensured
                    e in
                omega int_laws;
          })
          (λ held. >>=-Ensures (consume_one f a taken) (λ c e.
            let (share, same, from, at) =
              (consume_one-Shares f a taken ha (ground arith) (ground arith)).ensured e in
            let (_, named) =
              (lot_of-found (λ _. Unit {0}) a.position_detail_id f.lots (anywhere f.lots)).ensured
                at in
            let first = taken_from_bound key a c named (rw from at share.of_allocation) in
            >>=-Ensures (consume f rest (n -ℤ taken)) (λ last el.
              let within = (consume-Within f key rest (n -ℤ taken) h r0 r1).ensured el in
              ok-Ensures (Within key (a ∷ rest)) _ (omega int_laws)))))

-- A column of the lots from which each consumption takes its part.
write_lots_total :
    (column : LotRow → ℤ) (part : CloseConsumption → ℤ) (is_option : Bool)
    → ((c : CloseConsumption) (l : LotRow)
        → column (consumed_lot is_option c l) ≡ column l -ℤ part c)
    → (cs : List CloseConsumption) (lots : List LotRow) (allocations : List AllocationRow)
    → All (λ c. count (λ l. l.position_detail_id) c.detail.position_detail_id lots ≡ 1) cs
    → total column (write_consumptions is_option cs (lots, allocations)).0
      ≡ total column lots -ℤ total part cs
unfolding write_consumptions consume_lots consumed_lot
write_lots_total column part is_option taken [] lots allocations h = omega int_laws
write_lots_total column part is_option taken (c ∷ cs) lots allocations (hc, h) =
    let first =
      total_once (λ l. l.position_detail_id) column c.detail.position_detail_id
        (consumed_lot is_option c) (part c) (taken c) lots hc in
    let kept =
      All-map
        (λ d k.
          count-update (λ l. l.position_detail_id) (λ l. l.position_detail_id)
            d.detail.position_detail_id c.detail.position_detail_id (consumed_lot is_option c)
            (λ l. refl) lots
          ∙ k)
        cs h in
    let others =
      write_lots_total column part is_option taken cs (consume_lots is_option c lots)
        (consume_allocations c allocations) kept in
    others ∙ rw first (omega int_laws)

took_some :
    (c : CloseConsumption) (cs : List CloseConsumption) (l : LotRow)
    → l.position_detail_id ≡ c.detail.position_detail_id
    → total (taken_from l.position_detail_id) (c ∷ cs) ≤ℤ l.remaining_volume
    → total (taken_from l.position_detail_id) cs ≤ℤ l.remaining_volume -ℤ c.volume
took_some c cs l same enough =
    let found : (c.detail.position_detail_id == l.position_detail_id) ≡ true = ground arith in
    let enough' = rw found at enough in omega int_laws

took_none :
    (c : CloseConsumption) (cs : List CloseConsumption) (l : LotRow)
    → (l.position_detail_id == c.detail.position_detail_id) ≡ false
    → total (taken_from l.position_detail_id) (c ∷ cs) ≤ℤ l.remaining_volume
    → total (taken_from l.position_detail_id) cs ≤ℤ l.remaining_volume
took_none c cs l other enough =
    let absent : (c.detail.position_detail_id == l.position_detail_id) ≡ false = ground arith in
    let enough' = rw absent at enough in omega int_laws

-- No lot falls below zero from which no more is taken than it holds.
write_lots-All :
    (P : LotRow → Type 0) (is_option : Bool)
    → ((c : CloseConsumption) (l : LotRow) → P l → P (consumed_lot is_option c l))
    → (cs : List CloseConsumption) (lots : List LotRow) (allocations : List AllocationRow)
    → All (λ l. P l × (total (taken_from l.position_detail_id) cs ≤ℤ l.remaining_volume)) lots
    → All
        (λ l. P l × (pos 0 ≤ℤ l.remaining_volume))
        (write_consumptions is_option cs (lots, allocations)).0
unfolding write_consumptions consume_lots consumed_lot
write_lots-All P is_option keeps [] lots allocations h = h
write_lots-All P is_option keeps (c ∷ cs) lots allocations h =
    write_lots-All P is_option keeps cs (consume_lots is_option c lots)
      (consume_allocations c allocations)
      (update-All (λ l. l.position_detail_id)
        (λ l. P l × (total (taken_from l.position_detail_id) (c ∷ cs) ≤ℤ l.remaining_volume))
        (λ l. P l × (total (taken_from l.position_detail_id) cs ≤ℤ l.remaining_volume))
        c.detail.position_detail_id (consumed_lot is_option c)
        (λ l same (hp, enough). (keeps c l hp, took_some c cs l same enough))
        (λ l other (hp, enough). (hp, took_none c cs l other enough)) lots h)

-- The volumes that the lots hold and that is frozen in them fall by what is taken.
pub write_lots_volumes :
    (is_option : Bool) (cs : List CloseConsumption) (lots : List LotRow)
    → (allocations : List AllocationRow)
    → All (λ c. count (λ l. l.position_detail_id) c.detail.position_detail_id lots ≡ 1) cs
    → (total (λ l. l.remaining_volume) (write_consumptions is_option cs (lots, allocations)).0
        ≡ total (λ l. l.remaining_volume) lots -ℤ total (λ c. c.volume) cs)
      × (total (λ l. l.frozen_volume) (write_consumptions is_option cs (lots, allocations)).0
          ≡ total (λ l. l.frozen_volume) lots -ℤ total (λ c. c.volume) cs)
unfolding consumed_lot
write_lots_volumes is_option cs lots allocations h = (
  write_lots_total (λ l. l.remaining_volume) (λ c. c.volume) is_option (λ c l. refl) cs lots
      allocations h,
  write_lots_total (λ l. l.frozen_volume) (λ c. c.volume) is_option (λ c l. refl) cs lots
      allocations h,
)

-- Lots from which no more is taken than they hold keep their day, and hold no negative volume.
pub write_lots_held :
    (day : ℕ) (is_option : Bool) (cs : List CloseConsumption) (lots : List LotRow)
    → (allocations : List AllocationRow)
    → All
        (λ l.
          (l.open_trading_day ≤ day)
          × (total (taken_from l.position_detail_id) cs ≤ℤ l.remaining_volume))
        lots
    → All
        (λ l. (l.open_trading_day ≤ day) × (pos 0 ≤ℤ l.remaining_volume))
        (write_consumptions is_option cs (lots, allocations)).0
unfolding consumed_lot
write_lots_held day is_option cs lots allocations h =
    write_lots-All (λ l. l.open_trading_day ≤ day) is_option (λ c l k. k) cs lots allocations h
