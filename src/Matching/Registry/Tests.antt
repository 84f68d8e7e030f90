-- ===== src/Matching/Registry/Tests.antt =====
-- A strategy, named by a number, that is registered beside another.
use sim_trade.Prelude.{ℕ, ◌≡◌, refl, List, [], ◌∷◌}
use sim_trade.Enums.{ProductFamily, futures_family, stocks_family, convertible_bonds_family}
use sim_trade.Matching.Registry.{registered, resolve, register}

abbrev cash_families : List ProductFamily
cash_families = stocks_family ∷ convertible_bonds_family ∷ []

abbrev futures_only : List (ProductFamily × ℕ)
futures_only = (futures_family, 1) ∷ []

cash_registered : (register 2 cash_families futures_only).0 ≡ registered
unfolding register resolve
cash_registered = refl
