-- ===== src/Db.antt =====
-- The persisted shapes and the store, app/db.
pub mod Text
pub mod Cursor
pub mod Entities
pub mod Models
pub mod Uploads
pub mod Store
pub mod Barrier
