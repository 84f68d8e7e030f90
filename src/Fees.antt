-- ===== src/Fees.antt =====
-- The fee calculator, app/services/fee_calculator.py: one fee from a rule snapshot, the components
-- of a stock fee, and the allocation of bucket fees to the entries of a close order.
pub mod Snapshot
pub mod Stock
pub mod Buckets
