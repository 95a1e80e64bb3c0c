-- ===== src/Core.antt =====
-- app/core: errors, and what a request does with the session.
pub mod Errors
pub mod Json
