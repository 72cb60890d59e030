-- ===== src/Telemetry.antt =====
-- internal/telemetry: the measurements that the program exposes, as calls of the metrics library.
pub mod Series
pub mod Metrics
pub mod Limits
pub mod Runtime
pub mod Registry
