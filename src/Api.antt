-- ===== src/Api.antt =====
-- app/api, and the middleware of app/main.py.
pub mod Download
pub mod Deps
pub mod Events
pub mod Reads
pub mod Middleware
pub mod Commands
