-- ===== src/External.antt =====
-- What visus calls and does not implement, as records of operations that the models take as
-- parameters.
pub mod Prometheus
pub mod Scheduler
pub mod Lru
pub mod Database
pub mod Yaml
pub mod Sql
pub mod Tail
pub mod Float
