-- ===== src/Positions.antt =====
-- The pure position calculators of app/services: which lots a close order takes, the margin that a
-- partial close releases, and realized profit.
pub mod CloseAllocator
pub mod MarginRelease
pub mod Pnl
