-- ===== src/Metrics.antt =====
-- internal/metrics: telemetry statistics over all received frames.
pub mod Float64
pub mod Types
pub mod Tracker
pub mod Heartbeat
pub mod Snapshot
pub mod Calls
pub mod Accounting
pub mod Sequence
pub mod Stream
pub mod Sources
pub mod Loss
pub mod Copies
pub mod Heartbeats
