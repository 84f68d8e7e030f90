-- ===== src/OrderPrices/Rounding.antt =====
-- Rounding to a tick moves a price by less than a tick, in the direction asked for.
use native.Mathlib.Nat.{
  mul-div-le, lt-mul-div-succ, mul-mod_left, add-zero, mul-le-mul_left, mul-pos,
}
use sim_trade.Prelude.{
  ℕ, ◌+◌, ◌-◌, ◌*◌, ◌/◌, ◌%◌, ◌^◌, ◌≤◌, ◌<◌, ◌≡◌, ◌∙◌, refl, Bool, true, false, ltb, arith,
  if◌then◌else◌,
}
use sim_trade.Prelude.Int.{ℤ, pos, negsuc, pos_part, ◌*ℤ◌, ◌≤ℤ◌, ◌<ℤ◌, eqb_ℤ, leb_ℤ}
use sim_trade.Errors.{ok}
use sim_trade.Money.{Decimal, lt_decimal}
use sim_trade.Money.Rounding.{ten_pow_pos}
use sim_trade.OrderPrices.{round_to_tick, integral_of, ceiling_of, floor_of, validate_price_tick}

-- The quotient rounded upwards is the least whose product is not below.
ceiling_bounds :
    (n d : ℕ) → 0 < d → (n ≤ d * ((n + (d - 1)) / d)) × (d * ((n + (d - 1)) / d) < n + d)
ceiling_bounds n d h =
    let low = lt-mul-div-succ (n + (d - 1)) h in
    let high = mul-div-le (n + (d - 1)) d in (omega arith, omega arith)

floor_bounds : (n d : ℕ) → 0 < d → (d * (n / d) ≤ n) × (n < d * (n / d) + d)
floor_bounds n d h =
    let low = lt-mul-div-succ n h in let high = mul-div-le n d in (omega arith, omega arith)

pos_mul : (m n : ℕ) → pos m *ℤ pos n ≡ pos (m * n)
unfolding ◌*ℤ◌
pos_mul m n = ground arith

-- The number of ticks of a price, as a rounded quotient.
abbrev pub ticks : Bool → ℕ → ℕ → ℕ
ticks true n d = (n + (d - 1)) / d
ticks false n d = n / d

integral_of_pos :
    (upward : Bool) (n d : ℕ) → integral_of upward (pos n) (pos d) ≡ pos (ticks upward n d)
unfolding integral_of ceiling_of floor_of
integral_of_pos true n d = refl
integral_of_pos false n d = refl

pub round_to_tick_pos :
    (n p m q : ℕ) (upward : Bool)
    → 0 < m
    → round_to_tick
        (record { coefficient = pos n; places = p })
        (record { coefficient = pos m; places = q })
        upward
      ≡ ok (record { coefficient = pos (ticks upward (n * 10 ^ q) (m * 10 ^ p) * m); places = q })
unfolding round_to_tick
round_to_tick_pos n p m q upward h =
    let nonzero : eqb_ℤ (pos m) (pos 0) ≡ false = ground arith in
    rw (nonzero, pos_mul n (10 ^ q), pos_mul m (10 ^ p), integral_of_pos, pos_mul) refl

on_common : (k m a : ℕ) → k * m * a ≡ m * a * k
on_common k m a = omega arith

-- So many ticks.
abbrev pub multiple : Decimal → ℕ → Decimal
multiple tick k = record { coefficient = pos (k * pos_part tick.coefficient); places = tick.places }

-- Upwards: the least multiple of the tick that is not below the value. Downwards: the greatest that is
-- not above.
pub record IsRounded (upward : Bool) (value tick r : Decimal) : Type 0 where
  pub count : ℕ
  pub is_multiple : r ≡ multiple tick count
  pub not_beyond : (if upward then lt_decimal r value else lt_decimal value r) ≡ false
  pub nearest :
      (j : ℕ)
      → (if upward then j < count else count < j)
      → (if upward then lt_decimal (multiple tick j) value else lt_decimal value (multiple tick j))
        ≡ true

lt_pos :
    (a p b q : ℕ)
    → lt_decimal
        (record { coefficient = pos a; places = p })
        (record { coefficient = pos b; places = q })
      ≡ ltb (a * 10 ^ q) (b * 10 ^ p)
lt_pos a p b q =
    rw (pos_mul a (10 ^ q), pos_mul b (10 ^ p), add-zero (a * 10 ^ q), add-zero (b * 10 ^ p)) refl

not_less : (a b : ℕ) → b ≤ a → ltb a b ≡ false
not_less a b h = ground arith

less_than : (a b : ℕ) → a < b → ltb a b ≡ true
less_than a b h = ground arith

multiple_below : (j k m x n : ℕ) → j < k → m * x * k < n + m * x → ltb (j * m * x) n ≡ true
multiple_below j k m x n less high =
    let step : m * x * (j + 1) ≤ m * x * k = mul-le-mul_left (m * x) (omega arith) in
    less_than _ _ (omega arith)

multiple_above : (j k m x n : ℕ) → k < j → n < m * x * k + m * x → ltb n (j * m * x) ≡ true
multiple_above j k m x n more high =
    let step : m * x * (k + 1) ≤ m * x * j = mul-le-mul_left (m * x) (omega arith) in
    less_than _ _ (omega arith)

ticks-IsRounded :
    (n p m q : ℕ) (upward : Bool)
    → 0 < m
    → IsRounded upward
        (record { coefficient = pos n; places = p })
        (record { coefficient = pos m; places = q })
        (record { coefficient = pos (ticks upward (n * 10 ^ q) (m * 10 ^ p) * m); places = q })
ticks-IsRounded n p m q true h =
    let (low, high) = ceiling_bounds (n * 10 ^ q) (m * 10 ^ p) (mul-pos h (ten_pow_pos p)) in
    record {
      count = ticks true (n * 10 ^ q) (m * 10 ^ p);
      is_multiple = refl;
      not_beyond = lt_pos _ q n p ∙ not_less _ _ (rw (on_common _ m (10 ^ p)) low);
      nearest = λ j less. lt_pos (j * m) q n p ∙ multiple_below j _ m (10 ^ p) _ less high;
    }
ticks-IsRounded n p m q false h =
    let (low, high) = floor_bounds (n * 10 ^ q) (m * 10 ^ p) (mul-pos h (ten_pow_pos p)) in
    record {
      count = ticks false (n * 10 ^ q) (m * 10 ^ p);
      is_multiple = refl;
      not_beyond = lt_pos n p _ q ∙ not_less _ _ (rw (on_common _ m (10 ^ p)) low);
      nearest = λ j more. lt_pos n p (j * m) q ∙ multiple_above j _ m (10 ^ p) _ more high;
    }

-- A price and a tick, by their columns.
Rounding : ℤ → ℕ → ℤ → ℕ → Bool → Type 0
Rounding v p t q upward =
    (r : Decimal) × (round_to_tick (record { coefficient = v; places = p })
        (record { coefficient = t; places = q }) upward
      ≡ ok r)
    × IsRounded upward (record { coefficient = v; places = p })
        (record { coefficient = t; places = q }) r

rounding_lem :
    (v : ℤ) (p : ℕ) (t : ℤ) (q : ℕ) (upward : Bool)
    → pos 0 ≤ℤ v
    → pos 0 <ℤ t
    → Rounding v p t q upward
unfolding Rounding
rounding_lem (pos n) p (pos m) q upward hv ht = (
  _,
  round_to_tick_pos n p m q upward (omega arith),
  ticks-IsRounded n p m q upward (omega arith),
)
rounding_lem (negsuc n) p t q upward hv ht = absurd (omega arith)
rounding_lem v p (negsuc m) q upward hv ht = absurd (omega arith)

-- A price that is not negative is rounded to a positive tick, upwards or downwards.
pub round_to_tick-IsRounded :
    (value tick : Decimal) (upward : Bool)
    → pos 0 ≤ℤ value.coefficient
    → pos 0 <ℤ tick.coefficient
    → (r : Decimal) × (round_to_tick value tick upward ≡ ok r) × IsRounded upward value tick r
unfolding Rounding
round_to_tick-IsRounded value tick upward hv ht =
    rounding_lem value.coefficient value.places tick.coefficient tick.places upward hv ht

product_mod : (k m x : ℕ) → (k * m + 0) * x % (m * x) ≡ 0
product_mod k m x =
    let same : (k * m + 0) * x ≡ k * (m * x) = omega arith in rw same (mul-mod_left k (m * x))

pub validate_price_tick-multiple :
    (tick : Decimal) (k : ℕ)
    → pos 0 <ℤ tick.coefficient
    → validate_price_tick (multiple tick k) tick ≡ ok tt
unfolding validate_price_tick
validate_price_tick-multiple tick k h =
    let positive : leb_ℤ tick.coefficient (pos 0) ≡ false = ground arith in
    rw (positive, product_mod k (pos_part tick.coefficient) (10 ^ tick.places)) refl
