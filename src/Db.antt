-- ===== src/Db.antt =====
-- app/db: the mapped classes, their tables, and the store of a session.
pub mod Models
pub mod Table
pub mod Store
pub mod Pages
pub mod Counts
pub mod Migrations
