-- ===== src/Services.antt =====
-- The services, app/services.
pub mod EventBus
pub mod Deadlines
pub mod ChargeService
pub mod Attachments
