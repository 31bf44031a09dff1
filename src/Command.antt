-- ===== src/Command.antt =====
-- internal/cmd: the commands with which configurations are managed.
pub mod Terminal
pub mod Rounds
pub mod Trials
pub mod Collection
pub mod Scan
pub mod Histogram
pub mod Node
pub mod Environment
mod Examples
