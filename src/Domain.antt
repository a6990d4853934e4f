-- ===== src/Domain.antt =====
-- The domain types and rules (packages/domain).
pub mod StateMachines
pub mod Temporal
