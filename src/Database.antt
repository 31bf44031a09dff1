-- ===== src/Database.antt =====
-- internal/database: the pool of connections.
pub mod Factory
mod Pauses
mod Examples
