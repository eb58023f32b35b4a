-- ===== src/Metrics/MetricsCollector.antt =====
-- metrics/metrics_collector.h and metrics/metrics_collector.cpp, class MetricsCollector: the monitors behind one
-- door (`Calls` has the methods, and `Report` has `getSnapshot`). A thread that waits for ever for a mutex is
-- `none`.
pub mod Calls
pub mod Report
pub mod Forwarding
pub mod Blocking
pub mod Amounts
pub mod Counting
mod Examples
use datafeed_server.Prelude.{
  ℕ, suc, Bool, true, false, String, List, [], ◌∷◌, Option, none, some, add64,
}
use datafeed_server.Metrics.LatencyTracker as LatencyPart
use datafeed_server.Metrics.ThroughputTracker as ThroughputPart
use datafeed_server.Metrics.SystemMonitor as SystemPart
use datafeed_server.Metrics.ExchangeMonitor as ExchangePart
use datafeed_server.Metrics.QueueMonitor as QueuePart
use datafeed_server.Metrics.FeedHealth as HealthPart
use datafeed_server.Metrics.SessionMonitor as SessionPart
use datafeed_server.Metrics.NetworkMonitor as NetworkPart
use datafeed_server.Metrics.DatabaseMonitor as DatabasePart
use datafeed_server.Metrics.ThroughputTracker.{ThroughputTracker}
use datafeed_server.Metrics.SystemMonitor.{SystemMonitor}
use datafeed_server.Metrics.ExchangeMonitor.{ExchangeMonitor}
use datafeed_server.Metrics.QueueMonitor.{QueueMonitor}
use datafeed_server.Metrics.FeedHealth.{FeedHealth}
use datafeed_server.Metrics.SessionMonitor.{SessionMonitor}
use datafeed_server.Metrics.NetworkMonitor.{NetworkMonitor}
use datafeed_server.Metrics.DatabaseMonitor.{DatabaseMonitor}
use datafeed_server.Metrics.LatencyTracker.{DoubleArithmetic, LatencyTracker}
use datafeed_server.Metrics.Atomics.{bump}
use datafeed_server.Metrics.MetricsCollector.Calls.{Call, Effect, forward}

module _ (arithmetic : DoubleArithmetic) where
  open arithmetic use {Double, zero_double}

  pub record MetricsCollector : Type 0 where
    pub latency_tracker : LatencyTracker arithmetic
    pub throughput_tracker : ThroughputTracker
    pub system_monitor : SystemMonitor Double
    pub exchange_monitor : ExchangeMonitor Double
    pub queue_monitor : QueueMonitor Double
    pub feed_health_monitor : FeedHealth
    pub session_monitor : SessionMonitor
    pub network_monitor : NetworkMonitor Double
    pub database_monitor : DatabaseMonitor Double
    pub parse_errors : ℕ
    pub reconnect_count : ℕ

  unfoldable pub on_exchange_monitor :
      Option (ExchangeMonitor Double) → MetricsCollector → Option MetricsCollector
  on_exchange_monitor none m = none
  on_exchange_monitor (some em) m = some (record m { exchange_monitor = em })

  unfoldable pub reset : ℕ → MetricsCollector → Option MetricsCollector
  unfolding on_exchange_monitor
  reset now m =
      on_exchange_monitor
        (ExchangePart.step zero_double ExchangePart.Call.resets_all m.exchange_monitor)
        (record m {
          latency_tracker = LatencyPart.clear_all arithmetic m.latency_tracker;
          throughput_tracker = ThroughputPart.reset now;
          system_monitor = SystemPart.init arithmetic now;
          queue_monitor = QueuePart.reset zero_double;
          feed_health_monitor = HealthPart.reset;
          session_monitor = SessionPart.reset;
          network_monitor = NetworkPart.reset zero_double;
          database_monitor = DatabasePart.reset zero_double;
          parse_errors = 0;
          reconnect_count = 0;
        })

  unfoldable pub apply : Effect arithmetic → MetricsCollector → Option MetricsCollector
  unfolding bump on_exchange_monitor reset
  apply (Effect.latency c) m =
      some (record m { latency_tracker = LatencyPart.step arithmetic c m.latency_tracker })
  apply (Effect.throughput c) m =
      some (record m { throughput_tracker = ThroughputPart.step c m.throughput_tracker })
  apply (Effect.system_update now readings) m = some (record m {
    system_monitor = SystemPart.update_cpu_usage arithmetic now readings m.system_monitor;
  })
  apply (Effect.exchange c) m =
      on_exchange_monitor (ExchangePart.step zero_double c m.exchange_monitor) m
  apply (Effect.queue c) m =
      some (record m { queue_monitor = QueuePart.step zero_double c m.queue_monitor })
  apply (Effect.health c) m =
      some (record m { feed_health_monitor = HealthPart.step c m.feed_health_monitor })
  apply (Effect.session c) m =
      some (record m { session_monitor = SessionPart.step c m.session_monitor })
  apply (Effect.network c) m =
      some (record m { network_monitor = NetworkPart.step zero_double c m.network_monitor })
  apply (Effect.database c) m =
      some (record m { database_monitor = DatabasePart.step zero_double c m.database_monitor })
  apply Effect.parse_error m = some (record m { parse_errors = bump m.parse_errors })
  apply Effect.reconnect m = some (record m { reconnect_count = bump m.reconnect_count })
  apply (Effect.reset_all now) m = reset now m

  unfoldable pub apply_all : List (Effect arithmetic) → MetricsCollector → Option MetricsCollector
  unfolding apply
  apply_all [] m = some m
  apply_all (e ∷ es) m = elim (apply e m) [ none ↦ none | some m' ↦ apply_all es m' ]

  unfoldable pub step : Call arithmetic → MetricsCollector → Option MetricsCollector
  unfolding forward apply_all
  step c m = apply_all (forward arithmetic c) m

  unfoldable pub run : List (Call arithmetic) → MetricsCollector → Option MetricsCollector
  run [] m = some m
  run (c ∷ cs) m = elim (step c m) [ none ↦ none | some m' ↦ run cs m' ]

  -- with what the clock returns in the constructors
  unfoldable pub init : ℕ → MetricsCollector
  init now = record {
    latency_tracker = LatencyPart.init arithmetic 1000;
    throughput_tracker = ThroughputPart.reset now;
    system_monitor = SystemPart.init arithmetic now;
    exchange_monitor = record { locked = false; exchanges = [] };
    queue_monitor = QueuePart.reset zero_double;
    feed_health_monitor = HealthPart.reset;
    session_monitor = SessionPart.reset;
    network_monitor = NetworkPart.reset zero_double;
    database_monitor = DatabasePart.reset zero_double;
    parse_errors = 0;
    reconnect_count = 0;
  }
