-- ===== src/Collector.antt =====
-- internal/collector: collections that are queried on a schedule and exported to Prometheus.
pub mod Types
pub mod Build
pub mod Values
pub mod Collect
pub mod Sample
pub mod Server
