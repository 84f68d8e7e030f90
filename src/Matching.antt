-- ===== src/Matching.antt =====
-- The pure matching engines, app/matching: one order against the best opposite quote.
pub mod Types
pub mod Vn
pub mod CashSecurity
pub mod Registry
