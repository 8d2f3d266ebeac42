-- ===== src/Core.antt =====
-- app/core: the clock, the error catalogue, fault injection, grapheme counting, canonical JSON, digests
-- and settings.
pub mod Clock
pub mod Errors
pub mod Settings
pub mod Chaos
pub mod Graphemes
pub mod CanonicalJson
pub mod Idempotency
