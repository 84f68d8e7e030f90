-- ===== src/Risk.antt =====
-- The account's risk: its state machine, app/services/account_risk_state_service.py.
pub mod State
