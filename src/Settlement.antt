-- ===== src/Settlement.antt =====
-- The settlement of the fills of closing orders.
pub mod Rows
pub mod Tables
pub mod Consumption
pub mod Validation
pub mod Valuation
pub mod Funds
pub mod Close
pub mod Open
pub mod Trade
