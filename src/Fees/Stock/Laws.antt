-- ===== src/Fees/Stock/Laws.antt =====
-- The fee of a stock order against its description: distinct types, and the sum of the components.
use sim_trade.Prelude.{
  ℕ, ◌≡◌, ◌↔◌, ◌∙◌, refl, ap, sym, inl, inr, ◌⊎◌, Bool-cases, false, List, [], ◌∷◌, arith,
}
use sim_trade.Prelude.Int.{ℤ, pos, ◌+ℤ◌, ◌≤ℤ◌, ltb_ℤ, max_ℤ, eq_of_parts, int_laws}
use sim_trade.Errors.{
  Result, ok, ◌>>=◌, raise_if, >>=-eq-ok, raise_if-eq-ok, ok-injective,
  duplicate_stock_fee_component,
}
use sim_trade.Money.{Decimal, Money, quantize_money}
use sim_trade.Fees.Snapshot.{calculate_from_snapshot}
use sim_trade.Fees.Stock.{
  StockFeeComponent, seen, component_fee, with_minimum, stock_loop, calculate_stock_components,
}

abbrev pub fee_types : List StockFeeComponent → List ℕ
fee_types [] = []
fee_types (c ∷ rest) = c.fee_type ∷ fee_types rest

-- No text stands twice in the list.
abbrev pub IsDistinct : List ℕ → Type 0
IsDistinct [] = Unit
IsDistinct (t ∷ rest) = (seen t rest ≡ false) × IsDistinct rest

-- The sum of the components' fees, with no regard to their types.
stock_sum : Decimal → ℤ → List StockFeeComponent → Result Money
stock_sum price volume [] = ok (pos 0)
stock_sum price volume (c ∷ rest) = do
  raw_fee ← component_fee price volume c
  others ← stock_sum price volume rest
  ok (with_minimum raw_fee c +ℤ others)

-- No component has one of the types.
abbrev IsApart : List ℕ → List StockFeeComponent → Type 0
IsApart types [] = Unit
IsApart types (c ∷ rest) = (seen c.fee_type types ≡ false) × IsApart types rest

IsApart-cons :
    (t : ℕ) (types : List ℕ) (cs : List StockFeeComponent)
    → IsApart (t ∷ types) cs ↔ ((seen t (fee_types cs) ≡ false) × IsApart types cs)
unfolding seen
IsApart-cons t types [] = (λ h. (refl, tt), λ h. tt)
IsApart-cons t types (c ∷ cs) =
    let ih = IsApart-cons t types cs in
    (
      λ h. let (a, b) = ih.0 h.1 in (ground arith, (ground arith, b)),
      λ h. (ground arith, ih.1 (ground arith, h.1.1)),
    )

IsApart-nil : (cs : List StockFeeComponent) → IsApart [] cs
unfolding seen
IsApart-nil [] = tt
IsApart-nil (c ∷ cs) = (refl, IsApart-nil cs)

-- The loop adds the components' sum to the total, if it meets no type twice.
stock_loop_iff :
    (price : Decimal) (volume : ℤ) (cs : List StockFeeComponent) (types : List ℕ)
    → (start total : Money)
    → (stock_loop price volume cs types start ≡ ok total) ↔ (
        IsApart types cs
        × IsDistinct (fee_types cs)
        × ((others : Money) × (stock_sum price volume cs ≡ ok others) × (total ≡ start +ℤ others)))
unfolding stock_loop stock_sum
stock_loop_iff price volume [] types start total = (
  λ h. (tt, tt, (pos 0, refl, let s : start ≡ total = ok-injective h in rw (← s) (omega int_laws))),
  λ (_, _, (others, eo, et)).
      let z : pos 0 ≡ others = ok-injective eo in ap ok (sym (et ∙ (rw (← z) (omega int_laws)))),
)
stock_loop_iff price volume (c ∷ cs) types start total = (
  λ h.
      let (_, tested, h1) =
        >>=-eq-ok (raise_if (seen c.fee_type types) duplicate_stock_fee_component) _ h in
      let (fee, e, h2) = >>=-eq-ok (component_fee price volume c) _ h1 in
      let (apart, di, (others, eo, et)) =
        (stock_loop_iff price volume cs (c.fee_type ∷ types) (start +ℤ with_minimum fee c) total).0
          h2 in
      let (new, old) = (IsApart-cons c.fee_type types cs).0 apart in
      (
        (raise_if-eq-ok (seen c.fee_type types) duplicate_stock_fee_component tested, old),
        (new, di),
        (with_minimum fee c +ℤ others, rw (e, eo) refl, et ∙ eq_of_parts _ _ (omega int_laws)),
      ),
  λ (apart, di, (others, eo, et)).
      let (fee, e, h1) = >>=-eq-ok (component_fee price volume c) _ eo in
      let (rest, er, h2) = >>=-eq-ok (stock_sum price volume cs) _ h1 in
      let s : with_minimum fee c +ℤ rest ≡ others = ok-injective h2 in
      rw (apart.0, e)
        ((stock_loop_iff price volume cs (c.fee_type ∷ types) (start +ℤ with_minimum fee c) total).1
          (
            (IsApart-cons c.fee_type types cs).1 (di.0, apart.1),
            di.1,
            (rest, er, et ∙ (rw (← s) (omega int_laws))),
          )),
)

-- The fee is the greater of the raw fee and the minimum.
pub record IsRaised (raw minimum fee : Money) : Type 0 where
  pub reaches_raw : raw ≤ℤ fee
  pub reaches_minimum : minimum ≤ℤ fee
  pub tight : (fee ≡ raw) ⊎ (fee ≡ minimum)

max_ℤ-IsRaised : (raw minimum : Money) → IsRaised raw minimum (max_ℤ raw minimum)
max_ℤ-IsRaised raw minimum = elim (Bool-cases (ltb_ℤ raw minimum)) [
  | inl more ↦ record {
    reaches_raw = ground arith;
    reaches_minimum = ground arith;
    tight = inr (ground arith);
  }
  | inr less ↦ record {
    reaches_raw = ground arith;
    reaches_minimum = ground arith;
    tight = inl (ground arith);
  }
]

IsRaised-unique : (raw minimum fee : Money) → IsRaised raw minimum fee → fee ≡ max_ℤ raw minimum
IsRaised-unique raw minimum fee f =
    let g = max_ℤ-IsRaised raw minimum in
    let below : fee ≤ℤ max_ℤ raw minimum = elim f.tight [
      | inl is_raw ↦ rw is_raw g.reaches_raw
      | inr is_minimum ↦ rw is_minimum g.reaches_minimum
    ] in
    let above : max_ℤ raw minimum ≤ℤ fee = elim g.tight [
      | inl is_raw ↦ rw is_raw f.reaches_raw
      | inr is_minimum ↦ rw is_minimum f.reaches_minimum
    ] in
    eq_of_parts _ _ (omega (int_laws, below, above))

-- The components' fees add up to the total, each the raw fee of the component or, where that is more,
-- its minimum as an amount of money.
abbrev pub AreCharged : Decimal → ℤ → List StockFeeComponent → Money → Type 0
AreCharged price volume [] total = total ≡ pos 0
AreCharged price volume (c ∷ rest) total =
    (raw : Money) × (fee : Money) × (others : Money) × (calculate_from_snapshot price volume
        c.calculation_type c.commission_parameter c.contract_multiplier
      ≡ ok raw)
    × IsRaised raw (quantize_money c.minimum_fee) fee
    × AreCharged price volume rest others
    × (total ≡ fee +ℤ others)

stock_sum-AreCharged :
    (price : Decimal) (volume : ℤ) (cs : List StockFeeComponent) (total : Money)
    → (stock_sum price volume cs ≡ ok total) ↔ AreCharged price volume cs total
unfolding stock_sum component_fee with_minimum
stock_sum-AreCharged price volume [] total = (λ h. sym (ok-injective h), λ e. ap ok (sym e))
stock_sum-AreCharged price volume (c ∷ cs) total = (
  λ h.
      let (raw, e, h1) = >>=-eq-ok (component_fee price volume c) _ h in
      let (others, eo, h2) = >>=-eq-ok (stock_sum price volume cs) _ h1 in
      (
        raw,
        with_minimum raw c,
        others,
        e,
        max_ℤ-IsRaised raw (quantize_money c.minimum_fee),
        (stock_sum-AreCharged price volume cs others).0 eo,
        sym (ok-injective h2),
      ),
  λ (raw, fee, others, e, raised, rest, et).
      rw
        (
          e,
          (stock_sum-AreCharged price volume cs others).1 rest,
          et,
          IsRaised-unique raw (quantize_money c.minimum_fee) fee raised,
        )
        refl,
)

-- The components' fee is computed exactly when no fee type stands twice and every component has a
-- fee by its snapshot, and it is the sum over the components of the greater of that fee and the
-- component's minimum.
pub calculate_stock_components_iff :
    (price : Decimal) (volume : ℤ) (cs : List StockFeeComponent) (total : Money)
    → (calculate_stock_components price volume cs ≡ ok total)
      ↔ (IsDistinct (fee_types cs) × AreCharged price volume cs total)
unfolding calculate_stock_components
calculate_stock_components_iff price volume cs total =
    let loop = stock_loop_iff price volume cs [] (pos 0) total in
    let charged = stock_sum-AreCharged price volume cs total in
    (
      λ h.
          let (_, di, (others, eo, et)) = loop.0 h in
          (di, charged.0 (eo ∙ ap ok (sym (et ∙ eq_of_parts _ _ (omega int_laws))))),
      λ (di, e).
          loop.1 (IsApart-nil cs, di, (total, charged.1 e, eq_of_parts _ _ (omega int_laws))),
    )
