-- ===== src/Tests.antt =====
-- Concrete inputs, and the theorems applied to them.
pub mod Data
pub mod Domain
pub mod Stream
pub mod Service
pub mod Edge
pub mod Requests
pub mod Startup
pub mod Contested
pub mod Waiting
pub mod Reads
