-- ===== src/Domain.antt =====
-- The pure rules of app/domain.
pub mod ChargeState
pub mod Deadline
pub mod CostBreakdown
pub mod Namespace
