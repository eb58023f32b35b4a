-- ===== src/Metrics/SnapshotConverter/Entries.antt =====
-- metrics/snapshot_converter.cpp: the rows of the five history tables.
use datafeed_server.Prelude.{ℕ, String, List, [], ◌∷◌, some}
use datafeed_server.Prelude.Int.{pos, to_int64}
use datafeed_server.Metrics.LatencyTracker.{DoubleArithmetic}
use datafeed_server.Metrics.ExchangeMonitor.{ExchangeStats}
use datafeed_server.Metrics.Snapshot.{Snapshot}
use datafeed_server.Database.History.{
  ExchangeMetricsEntry, QueueEntry, SystemMetricsEntry, NetworkMetricsEntry, DatabaseMetricsEntry,
}

module _ (arithmetic : DoubleArithmetic) where
  open arithmetic use {Double}

  unfoldable pub to_queue_entry : Snapshot Double → String → ℕ → QueueEntry Double
  to_queue_entry s instance_id measured_at = record {
    id = pos 0;
    instance_id = instance_id;
    measured_at = measured_at;
    incoming_depth = to_int64 s.queues.incoming_queue_depth;
    outgoing_depth = to_int64 s.queues.outgoing_queue_depth;
    serialization_depth = to_int64 s.queues.serialization_queue_depth;
    max_incoming_depth = some (to_int64 s.queues.max_incoming_queue_depth);
    max_outgoing_depth = some (to_int64 s.queues.max_outgoing_queue_depth);
    max_serialization_depth = some (to_int64 s.queues.max_serialization_queue_depth);
    overflow_count = some (to_int64 s.queues.queue_overflow_count);
    backpressure = s.queues.queue_backpressure;
    wait_time_ms = some s.queues.queue_wait_time_ms;
    processing_time_ms = some s.queues.queue_processing_time_ms;
  }

  unfoldable pub to_system_entry : Snapshot Double → String → ℕ → SystemMetricsEntry Double
  to_system_entry s instance_id measured_at = record {
    id = pos 0;
    instance_id = instance_id;
    measured_at = measured_at;
    cpu_usage_percent = some s.system.cpu_usage_percent;
    memory_rss = some (to_int64 s.system.memory_rss);
    peak_rss = some (to_int64 s.system.peak_rss);
    virtual_memory = some (to_int64 s.system.virtual_memory);
    heap_usage = some (to_int64 s.system.heap_usage);
    memory_growth_rate = some s.system.memory_growth_rate;
    thread_count = some (to_int64 s.system.thread_count);
    uptime_seconds = some s.system.uptime_seconds;
  }

  unfoldable pub to_network_entry : Snapshot Double → String → ℕ → NetworkMetricsEntry Double
  to_network_entry s instance_id measured_at = record {
    id = pos 0;
    instance_id = instance_id;
    measured_at = measured_at;
    tcp_reconnects = some (to_int64 s.network.tcp_reconnects);
    socket_errors = some (to_int64 s.network.socket_errors);
    read_errors = some (to_int64 s.network.read_errors);
    write_errors = some (to_int64 s.network.write_errors);
    tls_handshake_failures = some (to_int64 s.network.tls_handshake_failures);
    bytes_transmitted = some (to_int64 s.network.bytes_transmitted);
    bytes_received = some (to_int64 s.network.network_bytes_received);
    socket_rtt_ms = some s.network.socket_rtt_ms;
    bandwidth_bps = some s.network.network_bandwidth_bps;
    connection_failures = some (to_int64 s.network.connection_failures);
  }

  unfoldable pub to_database_entry : Snapshot Double → String → ℕ → DatabaseMetricsEntry Double
  to_database_entry s instance_id measured_at = record {
    id = pos 0;
    instance_id = instance_id;
    measured_at = measured_at;
    successful_writes = some (to_int64 s.database.successful_writes);
    failed_writes = some (to_int64 s.database.failed_writes);
    insert_latency_ms = some s.database.insert_latency_ms;
    query_latency_ms = some s.database.query_latency_ms;
    active_connections = some (to_int64 s.database.active_db_connections);
    connection_failures = some (to_int64 s.database.db_connection_failures);
    transaction_count = some (to_int64 s.database.transaction_count);
    writes_per_sec = some s.database.writes_per_sec;
    reads_per_sec = some s.database.reads_per_sec;
    queue_waiting = some (to_int64 s.database.db_queue_waiting);
  }

  unfoldable pub to_exchange_entry :
      String → ExchangeStats Double → String → ℕ → ExchangeMetricsEntry Double
  to_exchange_entry name stats instance_id measured_at = record {
    id = pos 0;
    instance_id = instance_id;
    exchange_name = name;
    snapshot_time = measured_at;
    connected = stats.connected;
    uptime_seconds = some stats.uptime_seconds;
    reconnect_count = some (to_int64 stats.reconnect_count);
    heartbeat_failures = some (to_int64 stats.heartbeat_failures);
    websocket_disconnects = some (to_int64 stats.websocket_disconnects);
    messages_received = some (to_int64 stats.messages_received);
    messages_dropped = some (to_int64 stats.messages_dropped);
    parse_errors = some (to_int64 stats.parse_errors);
    feed_lag_ms = some stats.feed_lag_ms;
    exchange_latency_ms = some stats.exchange_latency_ms;
    stale = stats.stale;
  }

  unfoldable pub to_exchange_entries :
      List (String × ExchangeStats Double) → String → ℕ → List (ExchangeMetricsEntry Double)
  unfolding to_exchange_entry
  to_exchange_entries [] instance_id measured_at = []
  to_exchange_entries ((name, stats) ∷ rest) instance_id measured_at =
      to_exchange_entry name stats instance_id measured_at
      ∷ to_exchange_entries rest instance_id measured_at
