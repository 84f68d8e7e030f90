-- ===== src/Fees/Buckets/Writes.antt =====
-- Writing the shares of a bucket into the result list.
use sim_trade.Prelude.{
  ℕ, zero, suc, ◌≤◌, ◌≡◌, ◌∙◌, ◌≢◌, refl, ap, some, List, [], ◌∷◌, length, get_elem?, set, arith,
  All, length-set,
}
use sim_trade.Prelude.Int.{pos, ◌+ℤ◌, ◌≤ℤ◌, int_laws}
use sim_trade.Money.{Money}
use sim_trade.Fees.Buckets.{write_shares}
use sim_trade.Fees.Buckets.Grouping.{occurs}
use sim_trade.Fees.Buckets.Shares.{sum_money}

get_elem?-set :
    (r : List Money) (i j : ℕ) (v : Money) → (j ≡ i → ⊥) → get_elem? (set r i v) j ≡ get_elem? r j
get_elem?-set [] i j v h = refl
get_elem?-set (x ∷ r) zero zero v h = absurd (h refl)
get_elem?-set (x ∷ r) zero (suc j) v h = refl
get_elem?-set (x ∷ r) (suc i) zero v h = refl
get_elem?-set (x ∷ r) (suc i) (suc j) v h = get_elem?-set r i j v (λ e. h (ap suc e))

-- A write over a zero adds its value to the sum.
sum_money-set :
    (r : List Money) (i : ℕ) (v : Money)
    → get_elem? r i ≡ some (pos 0)
    → sum_money (set r i v) ≡ sum_money r +ℤ v
sum_money-set [] i v h = cc
sum_money-set (x ∷ r) zero v h = let e : x ≡ pos 0 = cc in rw e (omega int_laws)
sum_money-set (x ∷ r) (suc i) v h = rw (sum_money-set r i v h) (omega int_laws)

occurs_self : (i : ℕ) (is : List ℕ) → 1 ≤ occurs i (i ∷ is)
occurs_self i is = ground arith

ne_of_occurs : (j i : ℕ) (is : List ℕ) → occurs j (i ∷ is) ≤ occurs j is → j ≢ i
ne_of_occurs j i is h e = ground arith

ne_of_once : (j i : ℕ) (is : List ℕ) → 1 ≤ occurs j is → occurs j (i ∷ is) ≤ 1 → j ≢ i
ne_of_once j i is m h e = ground arith

le_later : (j i : ℕ) (is : List ℕ) → 1 ≤ occurs j is → 1 ≤ occurs j (i ∷ is)
le_later j i is m = omega arith

le_rest : (j i : ℕ) (is : List ℕ) → occurs j (i ∷ is) ≤ 1 → occurs j is ≤ 1
le_rest j i is h = omega arith

-- An index that no write names keeps its value.
pub get_elem?-write_shares :
    (is : List ℕ) (ss r : List Money) (j : ℕ)
    → occurs j is ≡ 0
    → get_elem? (write_shares is ss r) j ≡ get_elem? r j
unfolding write_shares
get_elem?-write_shares [] ss r j h = refl
get_elem?-write_shares (i ∷ is) [] r j h = refl
get_elem?-write_shares (i ∷ is) (s ∷ ss) r j h =
    get_elem?-write_shares is ss (set r i s) j (omega arith)
    ∙ get_elem?-set r i j s (λ same. absurd (ne_of_occurs j i is (omega arith) same))

pub sum_money-write_shares :
    (is : List ℕ) (ss r : List Money)
    → length ss ≡ length is
    → ((j : ℕ) → occurs j is ≤ 1)
    → ((j : ℕ) → 1 ≤ occurs j is → get_elem? r j ≡ some (pos 0))
    → sum_money (write_shares is ss r) ≡ sum_money r +ℤ sum_money ss
unfolding write_shares
sum_money-write_shares [] [] r e once zeros = omega int_laws
sum_money-write_shares [] (s ∷ ss) r e once zeros = absurd (omega arith)
sum_money-write_shares (i ∷ is) [] r e once zeros = absurd (omega arith)
sum_money-write_shares (i ∷ is) (s ∷ ss) r e once zeros =
    let zero_at = zeros i (occurs_self i is) in
    let once' = λ (j : ℕ). le_rest j i is (once j) in
    let zeros' = λ (j : ℕ) (m : 1 ≤ occurs j is).
      get_elem?-set r i j s (ne_of_once j i is m (once j)) ∙ zeros j (le_later j i is m) in
    let ih = sum_money-write_shares is ss (set r i s) (omega arith) once' zeros' in
    rw (ih, sum_money-set r i s zero_at) (omega int_laws)

abbrev pub NonNegative : Money → Type 0
NonNegative m = pos 0 ≤ℤ m

set-NonNegative :
    (r : List Money) (i : ℕ) (v : Money)
    → All NonNegative r
    → NonNegative v
    → All NonNegative (set r i v)
set-NonNegative [] i v h p = tt
set-NonNegative (x ∷ r) zero v h p = (p, h.1)
set-NonNegative (x ∷ r) (suc i) v h p = (h.0, set-NonNegative r i v h.1 p)

pub write_shares-NonNegative :
    (is : List ℕ) (ss r : List Money)
    → All NonNegative ss
    → All NonNegative r
    → All NonNegative (write_shares is ss r)
unfolding write_shares
write_shares-NonNegative [] ss r hs hr = hr
write_shares-NonNegative (i ∷ is) [] r hs hr = hr
write_shares-NonNegative (i ∷ is) (s ∷ ss) r hs hr =
    write_shares-NonNegative is ss (set r i s) hs.1 (set-NonNegative r i s hr hs.0)

pub length-write_shares :
    (is : List ℕ) (ss r : List Money) → length (write_shares is ss r) ≡ length r
unfolding write_shares
length-write_shares [] ss r = refl
length-write_shares (i ∷ is) [] r = refl
length-write_shares (i ∷ is) (s ∷ ss) r = length-write_shares is ss (set r i s) ∙ length-set r i s
