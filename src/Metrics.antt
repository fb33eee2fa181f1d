-- ===== src/Metrics.antt =====
-- node/metrics: the counters and the latencies that a node keeps.
pub mod Ring
pub mod Collector
pub mod Snapshot
pub mod Reporter
