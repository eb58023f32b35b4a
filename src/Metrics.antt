-- ===== src/Metrics.antt =====
-- metrics/: the counters and the histories from which the server reports its health.
pub mod RingBuffer
pub mod Atomics
pub mod QueueMonitor
pub mod FeedHealth
pub mod SessionMonitor
pub mod ExchangeMonitor
pub mod LatencyTracker
pub mod ThroughputTracker
pub mod Snapshot
pub mod Running
pub mod MetricAggregator
pub mod SystemMonitor
pub mod NetworkMonitor
pub mod DatabaseMonitor
pub mod MetricsCollector
pub mod SnapshotConverter
pub mod Persistence
pub mod WeeklyRollup
pub mod StateManager
