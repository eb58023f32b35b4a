-- ===== src/Metrics/MetricsCollector/Report.antt =====
-- metrics/metrics_collector.cpp: `getSnapshot` of class MetricsCollector, which copies what the monitors report.
use datafeed_server.Prelude.{ℕ, List, [], ◌∷◌, Option, none, some}
use datafeed_server.Metrics.LatencyTracker.{DoubleArithmetic, LatencyStats, get_all_latency_stats}
use datafeed_server.Metrics.ThroughputTracker.{ThroughputStats, Counter, get_and_update_stats}
use datafeed_server.Metrics.SystemMonitor.{Readings, get_system_metrics}
use datafeed_server.Metrics.ExchangeMonitor.{get_all_stats}
use datafeed_server.Metrics.QueueMonitor.{QueueMonitor}
use datafeed_server.Metrics.FeedHealth.{FeedHealthStats, get_stats}
use datafeed_server.Metrics.SessionMonitor.{SessionMonitor}
use datafeed_server.Metrics.NetworkMonitor.{NetworkMonitor}
use datafeed_server.Metrics.DatabaseMonitor.{DatabaseMonitor}
use datafeed_server.Metrics.Snapshot.{
  Snapshot, LatencyCategoryStats, Rates, Totals, Queues, Health, Sessions, Network, Database,
}
use datafeed_server.Metrics.MetricsCollector.{MetricsCollector}

module _ (arithmetic : DoubleArithmetic) where
  open arithmetic use {Double, zero_double, seconds, quotient, from_count}

  -- the copies of `getSnapshot`, in its order
  unfoldable pub latency_copies :
      List (ℕ × LatencyStats arithmetic) → List (ℕ × LatencyCategoryStats Double)
  latency_copies [] = []
  latency_copies ((category, stats) ∷ rest) =
      (
        category,
        record {
          average = stats.average;
          min = stats.min;
          max = stats.max;
          p50 = stats.p50;
          p95 = stats.p95;
          p99 = stats.p99;
          count = stats.count;
        },
      )
      ∷ latency_copies rest

  -- `static_cast<double>(current - last) / elapsed_sec` in `getAndUpdateStats`
  unfoldable pub rate : Counter → ThroughputStats → Double
  rate k stats = quotient (from_count (stats.differences k)) (seconds stats.elapsed)

  unfoldable pub copy_rates : ThroughputStats → Rates Double
  unfolding rate
  copy_rates stats = record {
    messages_received_per_sec = rate Counter.messages_received stats;
    messages_sent_per_sec = rate Counter.messages_sent stats;
    bytes_received_per_sec = rate Counter.bytes_received stats;
    bytes_sent_per_sec = rate Counter.bytes_sent stats;
    packets_received_per_sec = rate Counter.packets_received stats;
    packets_sent_per_sec = rate Counter.packets_sent stats;
    ticks_per_sec = rate Counter.ticks stats;
    trades_per_sec = rate Counter.trades stats;
    orderbook_updates_per_sec = rate Counter.orderbook_updates stats;
    subscriptions_per_sec = rate Counter.subscriptions stats;
    broadcasts_per_sec = rate Counter.broadcasts stats;
    database_writes_per_sec = rate Counter.database_writes stats;
    database_reads_per_sec = rate Counter.database_reads stats;
  }

  unfoldable pub copy_totals : ThroughputStats → Totals
  copy_totals stats = record {
    total_messages_received = stats.counts Counter.messages_received;
    total_messages_sent = stats.counts Counter.messages_sent;
    total_bytes_received = stats.counts Counter.bytes_received;
    total_bytes_sent = stats.counts Counter.bytes_sent;
    total_packets_received = stats.counts Counter.packets_received;
    total_packets_sent = stats.counts Counter.packets_sent;
    total_ticks = stats.counts Counter.ticks;
    total_trades = stats.counts Counter.trades;
    total_orderbook_updates = stats.counts Counter.orderbook_updates;
    total_subscriptions = stats.counts Counter.subscriptions;
    total_broadcasts = stats.counts Counter.broadcasts;
    total_database_writes = stats.counts Counter.database_writes;
    total_database_reads = stats.counts Counter.database_reads;
  }

  unfoldable pub copy_queues : QueueMonitor Double → Queues Double
  copy_queues stats = record {
    incoming_queue_depth = stats.incoming.depth;
    outgoing_queue_depth = stats.outgoing.depth;
    serialization_queue_depth = stats.serialization.depth;
    max_incoming_queue_depth = stats.incoming.peak;
    max_outgoing_queue_depth = stats.outgoing.peak;
    max_serialization_queue_depth = stats.serialization.peak;
    queue_overflow_count = stats.overflow_count;
    queue_backpressure = stats.backpressure;
    queue_wait_time_ms = stats.queue_wait_time_ms;
    queue_processing_time_ms = stats.queue_processing_time_ms;
  }

  unfoldable pub copy_health : FeedHealthStats → Health
  copy_health stats = record {
    packet_drops = stats.counters.packet_drops;
    duplicate_packets = stats.counters.duplicate_packets;
    out_of_order_packets = stats.counters.out_of_order_packets;
    sequence_gaps = stats.counters.sequence_gaps;
    missing_ticks = stats.counters.missing_ticks;
    invalid_messages = stats.counters.invalid_messages;
    corrupted_packets = stats.counters.corrupted_packets;
    parse_failures = stats.counters.parse_failures;
    stale_feed = stats.counters.stale_feed;
    feed_health_score = stats.health_score;
    feed_health_status = stats.status;
  }

  -- the durations are never written
  unfoldable pub copy_sessions : SessionMonitor → Sessions Double
  copy_sessions stats = record {
    active_clients = stats.active_clients;
    active_sessions = stats.active_sessions;
    active_subscriptions = stats.active_subscriptions;
    total_connections = stats.total_connections;
    total_disconnections = stats.total_disconnections;
    authentication_failures = stats.authentication_failures;
    reconnect_count = stats.reconnect_count;
    average_session_duration_ms = zero_double;
    longest_session_duration_ms = zero_double;
  }

  unfoldable pub copy_network : NetworkMonitor Double → Network Double
  copy_network stats = record {
    tcp_reconnects = stats.tcp_reconnects;
    socket_errors = stats.socket_errors;
    read_errors = stats.read_errors;
    write_errors = stats.write_errors;
    tls_handshake_failures = stats.tls_handshake_failures;
    bytes_transmitted = stats.bytes_transmitted;
    network_bytes_received = stats.bytes_received;
    socket_rtt_ms = stats.socket_rtt_ms;
    network_bandwidth_bps = stats.network_bandwidth_bps;
    connection_failures = stats.connection_failures;
  }

  unfoldable pub copy_database : DatabaseMonitor Double → Database Double
  copy_database stats = record {
    successful_writes = stats.successful_writes;
    failed_writes = stats.failed_writes;
    insert_latency_ms = stats.insert_latency_ms;
    query_latency_ms = stats.query_latency_ms;
    active_db_connections = stats.active_connections;
    db_connection_failures = stats.connection_failures;
    transaction_count = stats.transaction_count;
    writes_per_sec = stats.writes_per_sec;
    reads_per_sec = stats.reads_per_sec;
    db_queue_waiting = stats.queue_waiting;
  }

  -- with the times of the throughput tracker, of the system monitor (twice), and of each round of the
  -- exchange monitor
  unfoldable pub get_snapshot :
      ℕ
      → ℕ
      → ℕ
      → Readings
      → (ℕ → ℕ)
      → MetricsCollector arithmetic
      → Option (Snapshot Double × MetricsCollector arithmetic)
  unfolding latency_copies copy_rates copy_totals copy_queues copy_health copy_sessions copy_network
      copy_database
  get_snapshot now now₁ now₂ readings clock m =
      let throughput = get_and_update_stats now m.throughput_tracker in
      let system = get_system_metrics arithmetic now₁ now₂ readings m.system_monitor in
      elim (get_all_stats zero_double seconds clock m.exchange_monitor) [
        | none ↦ none
        | some exchange_stats ↦ some (
          record {
            latency_stats = latency_copies (get_all_latency_stats arithmetic m.latency_tracker);
            rates = copy_rates throughput.0;
            totals = copy_totals throughput.0;
            system = system.0;
            queues = copy_queues m.queue_monitor;
            health = copy_health (get_stats m.feed_health_monitor);
            sessions = copy_sessions m.session_monitor;
            network = copy_network m.network_monitor;
            database = copy_database m.database_monitor;
            exchange_stats = exchange_stats;
          },
          record m { throughput_tracker = throughput.1; system_monitor = system.1 },
        )
      ]
