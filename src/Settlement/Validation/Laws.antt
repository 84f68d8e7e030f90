-- ===== src/Settlement/Validation/Laws.antt =====
-- What is known of the rows once the checks before the writes have passed.
use sim_trade.Prelude.{◌≡◌, ◌∙◌, sym, true, not, ◌&&◌, some, List, [], ◌∷◌, All, arith}
use sim_trade.Prelude.Int.{ℤ, pos, ◌+ℤ◌, ◌≤ℤ◌, ◌<ℤ◌, ltb_ℤ, leb_ℤ, eqb_ℤ, int_laws}
use sim_trade.Errors.{ok, Ensures, ok-Ensures, >>=-Ensures, >>-Ensures}
use sim_trade.Enums.{PositionDirection}
use sim_trade.Fees.Buckets.{calculate_bucket_allocations}
use sim_trade.Settlement.Rows.{LotRow, AllocationRow, OrderRow, PositionRow}
use sim_trade.Settlement.Tables.{total}
use sim_trade.Settlement.Consumption.Laws.{frozen_volume_of}
use sim_trade.Settlement.Funds.Orders.{IsConsistent}
use sim_trade.Settlement.Validation.{
  check_allocation, Gathered, gathered, gather, expected_totals, same_totals, has_none, has_side,
  nothing, validate_before_mutation,
}
use sim_trade.Settlement.Validation.Backing.{
  demand-Ensures, demand-true, eqb_ℤ-eq, zero_add, has_side-eq, IsBacked, check_allocation-IsBacked,
}

-- What the loop has gathered of the allocations besides what it began with.
record IsGathered (o : OrderRow) (lots : List LotRow) (allocations : List AllocationRow)
    (g out : Gathered) : Type 0 where
  backed : All (IsBacked o lots) allocations
  volume : out.volume ≡ g.volume +ℤ frozen_volume_of allocations
  commission :
      out.commission ≡ g.commission +ℤ total (λ a. a.remaining_frozen_commission) allocations

gather-IsGathered :
    (o : OrderRow) (p : PositionRow) (side : PositionDirection) (lots : List LotRow)
    → (allocations : List AllocationRow) (g : Gathered)
    → Ensures (IsGathered o lots allocations g) (gather o p side lots allocations g)
unfolding gather
gather-IsGathered o p side lots [] g =
    ok-Ensures (IsGathered o lots [] g) g
      record { backed = tt; volume = omega int_laws; commission = omega int_laws }
gather-IsGathered o p side lots (a ∷ rest) g = >>-Ensures (check_allocation o p side lots a) (λ ea.
    record {
      ensured = λ e.
          let next = (gather-IsGathered o p side lots rest (gathered g a)).ensured e in
          record {
            backed = ((check_allocation-IsBacked o p side lots a).ensured ea, next.backed);
            volume = next.volume ∙ omega int_laws;
            commission = next.commission ∙ omega int_laws;
          };
    })

-- What the writes may rely on.
pub record IsSettleable (o : OrderRow) (p : PositionRow) (lots : List LotRow)
    (allocations : List AllocationRow) (n : ℤ) (side : PositionDirection) : Type 0 where
  pub positive : pos 0 <ℤ n
  pub within : n ≤ℤ o.remaining_volume
  pub direction : p.direction ≡ some side
  pub backed : All (IsBacked o lots) allocations
  pub consistent : IsConsistent o allocations

IsSettleable-of_sums :
    (o : OrderRow) (p : PositionRow) (lots : List LotRow)
    → (allocations : List AllocationRow) (n : ℤ) (side : PositionDirection) (g : Gathered)
    → IsGathered o lots allocations nothing g
    → pos 0 <ℤ n
    → n ≤ℤ o.remaining_volume
    → eqb_ℤ o.total_volume (o.traded_volume +ℤ o.remaining_volume +ℤ o.cancelled_volume) ≡ true
    → has_side side p.direction ≡ true
    → eqb_ℤ g.volume o.frozen_position_volume ≡ true
    → eqb_ℤ o.frozen_position_volume o.remaining_volume ≡ true
    → eqb_ℤ g.commission o.frozen_commission ≡ true
    → IsSettleable o p lots allocations n side
IsSettleable-of_sums o p lots allocations n side g all low high hv hd h1 h2 h3 = record {
  positive = low;
  within = high;
  direction = has_side-eq side p.direction hd;
  backed = all.backed;
  consistent = record {
    volumes = eqb_ℤ-eq _ _ hv;
    remaining = eqb_ℤ-eq _ _ h2;
    frozen_volume = zero_add _ ∙ sym all.volume ∙ eqb_ℤ-eq _ _ h1;
    frozen_commission = zero_add _ ∙ sym all.commission ∙ eqb_ℤ-eq _ _ h3;
  };
}

pub validate-Ensures :
    (o : OrderRow) (p : PositionRow) (lots : List LotRow)
    → (allocations : List AllocationRow) (n : ℤ) (side : PositionDirection)
    → Ensures
        (λ _. IsSettleable o p lots allocations n side)
        (validate_before_mutation o p lots allocations n side)
unfolding validate_before_mutation
validate-Ensures o p lots allocations n side =
    demand-Ensures (ltb_ℤ (pos 0) n && leb_ℤ n o.remaining_volume) (λ fill.
      demand-Ensures
        (eqb_ℤ o.total_volume (o.traded_volume +ℤ o.remaining_volume +ℤ o.cancelled_volume))
        (λ volumes. demand-Ensures (has_side side p.direction) (λ direction.
          demand-Ensures (not (has_none allocations)) (λ _.
            >>=-Ensures (gather o p side lots allocations nothing) (λ g eg.
              >>=-Ensures (calculate_bucket_allocations o.limit_price g.entries) (λ shares _.
                >>=-Ensures (expected_totals g.entries shares []) (λ expected _.
                  demand-Ensures (same_totals expected g.actual) (λ _.
                    demand-Ensures
                      (eqb_ℤ g.volume o.frozen_position_volume
                        && eqb_ℤ o.frozen_position_volume o.remaining_volume)
                      (λ frozen. record {
                        ensured = λ e.
                            let all =
                              (gather-IsGathered o p side lots allocations nothing).ensured eg in
                            let commission : eqb_ℤ g.commission o.frozen_commission ≡ true =
                              demand-true _ e in
                            IsSettleable-of_sums o p lots allocations n side g all (ground arith)
                              (ground arith) volumes direction (ground arith) (ground arith)
                              commission;
                      })))))))))

-- When the checks before any write pass, the fill is positive and within the order, the position is on
-- the side that is closed, every allocation is balanced and rests on a lot of the right day that still
-- holds its volume, and the order and its allocations hold the same frozen volume and commission.
pub validate-IsSettleable :
    (o : OrderRow) (p : PositionRow) (lots : List LotRow)
    → (allocations : List AllocationRow) (n : ℤ) (side : PositionDirection)
    → validate_before_mutation o p lots allocations n side ≡ ok tt
    → IsSettleable o p lots allocations n side
validate-IsSettleable o p lots allocations n side h =
    (validate-Ensures o p lots allocations n side).ensured h
