-- ===== src/CashSecurities.antt =====
-- The services for stocks, convertible bonds and exchange traded funds.
pub mod Position
pub mod Funds
