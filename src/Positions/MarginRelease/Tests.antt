-- ===== src/Positions/MarginRelease/Tests.antt =====
-- A margin of 0.000010 that is released over closes of 1, 1 and 1 lots.
use sim_trade.Prelude.{◌≡◌, refl, List, [], ◌∷◌, arith}
use sim_trade.Prelude.Int.{ℤ, pos, ◌+ℤ◌, ◌-ℤ◌, ◌*ℤ◌}
use sim_trade.Errors.{ok}
use sim_trade.Money.{proportion, quantize_ratio, round_half_up}
use sim_trade.Positions.MarginRelease.{release_margin}
use sim_trade.Positions.MarginRelease.Laws.{close_all, close_all_releases}

abbrev single_lots : List ℤ
single_lots = pos 1 ∷ pos 1 ∷ []

two_closed : close_all single_lots (pos 10) (pos 3) ≡ ok (pos 7, pos 3, pos 1)
unfolding close_all release_margin proportion quantize_ratio round_half_up ◌+ℤ◌ ◌-ℤ◌ ◌*ℤ◌
two_closed = refl

all_closed : close_all (pos 1 ∷ single_lots) (pos 10) (pos 3) ≡ ok (pos 10, pos 0, pos 0)
unfolding close_all release_margin proportion quantize_ratio round_half_up ◌+ℤ◌ ◌-ℤ◌ ◌*ℤ◌
all_closed = refl

close_all_releases_example : (pos 0 ≡ pos 0) × (pos 10 ≡ pos 10)
close_all_releases_example =
    close_all_releases (pos 1 ∷ single_lots) (pos 10) (pos 3) (pos 10) (pos 0) (omega arith)
      (omega arith) all_closed
