-- ===== src/Orders.antt =====
-- The resources of an order: what an account freezes for it and gets back, and its cancellation.
pub mod Account
pub mod Freeze
pub mod Allocations
pub mod Rows
pub mod Cancellation
