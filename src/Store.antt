-- ===== src/Store.antt =====
-- internal/store: the configuration that visus runs from, and the places that keep it.
pub mod Types
pub mod Memory
pub mod Sql
