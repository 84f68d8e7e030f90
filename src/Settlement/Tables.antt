-- ===== src/Settlement/Tables.antt =====
-- Tables: rows that an identifier names, a column added up, and a row that is written in place.
use sim_trade.Prelude.{
  ℕ, suc, ◌≤◌, ◌≡◌, true, false, All, All-map, refl, inl, inr, List, [], ◌∷◌, arith, Bool-cases,
  ◌==◌, if◌then◌else◌,
}
use sim_trade.Prelude.Int.{ℤ, pos, ◌+ℤ◌, ◌-ℤ◌, int_laws}

-- A column added up.
abbrev pub total : {R : Type 0} → (R → ℤ) → List R → ℤ
total column [] = pos 0
total column (r ∷ rest) = column r +ℤ total column rest

module _ {R : Type 0} (id_of : R → ℕ) where
  -- How often an identifier stands in the table.
  abbrev pub count : ℕ → List R → ℕ
  count key [] = 0
  count key (r ∷ rest) =
      let others = count key rest in if id_of r == key then suc others else others

  -- The rows with the identifier, written in place.
  unfoldable pub update : ℕ → (R → R) → List R → List R
  update key write [] = []
  update key write (r ∷ rest) = (if id_of r == key then write r else r) ∷ update key write rest

  -- No identifier stands twice.
  abbrev pub AreDistinct : List R → Type 0
  AreDistinct rows = (key : ℕ) → count key rows ≤ 1

  -- Each row of a table stands in it, whatever is put before.
  counted :
      (r : R) (rest rows : List R)
      → All (λ s. 1 ≤ count (id_of s) rest) rows
      → All (λ s. 1 ≤ count (id_of s) (r ∷ rest)) rows
  counted r rest [] h = tt
  counted r rest (s ∷ rows) (hs, h) = (
    elim (Bool-cases (id_of r == id_of s)) [
      | inl same ↦ rw same (omega arith)
      | inr other ↦ rw other hs
    ],
    counted r rest rows h,
  )

  pub occurs : (rows : List R) → All (λ r. 1 ≤ count (id_of r) rows) rows
  occurs [] = tt
  occurs (r ∷ rest) = (
    let same : (id_of r == id_of r) ≡ true = ground arith in rw same (omega arith),
    counted r rest rest (occurs rest),
  )

  -- So where no identifier stands twice, that of each row stands once.
  pub occurs_once : (rows : List R) → AreDistinct rows → All (λ r. count (id_of r) rows ≡ 1) rows
  occurs_once rows h = All-map (λ r k. let most = h (id_of r) in omega arith) rows (occurs rows)

  pub update-All :
      (P Q : R → Type 0) (key : ℕ) (write : R → R)
      → ((r : R) → id_of r ≡ key → P r → Q (write r))
      → ((r : R) → (id_of r == key) ≡ false → P r → Q r)
      → (rows : List R) → All P rows
      → All Q (update key write rows)
  unfolding update
  update-All P Q key write on off [] h = tt
  update-All P Q key write on off (r ∷ rest) (hr, h) =
      let others = update-All P Q key write on off rest h in
      elim (Bool-cases (id_of r == key)) [
        | inl found ↦ rw found (on r (ground arith) hr, others)
        | inr absent ↦ rw absent (off r absent hr, others)
      ]

  -- A column from which the write takes so much.
  module _ (column : R → ℤ) (key : ℕ) (write : R → R) (part : ℤ)
      (taken : (r : R) → column (write r) ≡ column r -ℤ part) where
    total_absent :
        (rows : List R)
        → count key rows ≡ 0
        → total column (update key write rows) ≡ total column rows
    unfolding update
    total_absent [] h = refl
    total_absent (r ∷ rest) h = elim (Bool-cases (id_of r == key)) [
      | inl found ↦ let h' = rw found at h in absurd (omega arith)
      | inr other ↦ rw (other, total_absent rest (rw other at h)) refl
    ]

    pub total_once :
        (rows : List R)
        → count key rows ≡ 1
        → total column (update key write rows) ≡ total column rows -ℤ part
    unfolding update
    total_once [] h = absurd (omega arith)
    total_once (r ∷ rest) h = elim (Bool-cases (id_of r == key)) [
      | inl found ↦
          let h' = rw found at h in
          rw (found, taken r, total_absent rest (omega arith)) (omega int_laws)
      | inr other ↦ rw (other, total_once rest (rw other at h)) (omega int_laws)
    ]

-- A write that keeps an identifier, whatever the rows are found by.
pub count-update :
    {R : Type 0} (key_of id_of : R → ℕ) (other key : ℕ) (write : R → R)
    → ((r : R) → id_of (write r) ≡ id_of r)
    → (rows : List R) → count id_of other (update key_of key write rows) ≡ count id_of other rows
unfolding update
count-update key_of id_of other key write named [] = refl
count-update key_of id_of other key write named (r ∷ rest) =
    let same = count-update key_of id_of other key write named rest in
    elim (Bool-cases (key_of r == key)) [
      | inl found ↦ rw (found, named r, same) refl
      | inr absent ↦ rw (absent, same) refl
    ]
