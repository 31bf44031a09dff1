-- ===== src/Scanner.antt =====
-- internal/scanner: counters of log lines.
pub mod Crdb
pub mod Build
pub mod Auth
pub mod Lines
pub mod Server
mod Examples
