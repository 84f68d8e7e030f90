-- ===== src/Matching/Registry.antt =====
-- The registry of matching strategies by product family, `MatchingStrategyRegistry` of
-- app/matching/product_strategy.py. The strategies are values of any type.
pub mod Laws
mod Tests
use sim_trade.Prelude.{Bool, true, false, Option, none, some, List, [], ◌∷◌, if◌then◌else◌}
use sim_trade.Enums.{
  ProductFamily, futures_family, options_family, stocks_family, convertible_bonds_family,
}

abbrev pub same_family : ProductFamily → ProductFamily → Bool
same_family futures_family futures_family = true
same_family options_family options_family = true
same_family stocks_family stocks_family = true
same_family convertible_bonds_family convertible_bonds_family = true
same_family _ _ = false

-- What `register` raises, beside the registry as it is left.
pub data Registration : Type 0 where
  registered duplicate_family : Registration

module _ {S : Type 0} where
  -- `self._strategies`, the newest entry first
  pub resolve : List (ProductFamily × S) → ProductFamily → Option S
  resolve [] family = none
  resolve ((f, s) ∷ rest) family = if same_family f family then some s else resolve rest family

  -- The loop of `register`; what it has written before it raises stays written.
  pub register :
      S → List ProductFamily → List (ProductFamily × S) → Registration × List (ProductFamily × S)
  register s [] strategies = (registered, strategies)
  register s (f ∷ rest) strategies = elim (resolve strategies f) [
    | some _ ↦ (duplicate_family, strategies)
    | none ↦ register s rest ((f, s) ∷ strategies)
  ]
