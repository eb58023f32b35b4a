-- ===== src/Database/ReadBack/Entries.antt =====
-- sadapter.cpp: the rows of the five history tables, read back.
use datafeed_server.Prelude.{some, ◌≡◌, string_key, lookup}
use datafeed_server.Prelude.Int.{ℤ}
use datafeed_server.Database.Statements.{
  insert_exchange_metrics, insert_queue_entry, insert_system_metrics, insert_network_metrics,
  insert_database_metrics,
}
use datafeed_server.Database.History.{
  ExchangeMetricsEntry, exchange_metrics_entry_values, read_exchange_metrics_entry, QueueEntry,
  queue_entry_values, read_queue_entry, SystemMetricsEntry, system_metrics_entry_values,
  read_system_metrics_entry, NetworkMetricsEntry, network_metrics_entry_values,
  read_network_metrics_entry, DatabaseMetricsEntry, database_metrics_entry_values,
  read_database_metrics_entry,
}
use datafeed_server.Database.ReadBack.Times.{misread, string_to_timestamp-printed}
use datafeed_server.Database.ReadBack.Stored.{int64-back, double-back, stored}

module _ {D : Type 0} where
  pub exchange_metrics_entry-back :
      (id : ℤ) (e : ExchangeMetricsEntry D)
      → read_exchange_metrics_entry
          (stored id insert_exchange_metrics.columns (exchange_metrics_entry_values e))
        ≡ some (record e { id = id; snapshot_time = misread e.snapshot_time })
  unfolding read_exchange_metrics_entry exchange_metrics_entry_values insert_exchange_metrics stored
      lookup
  exchange_metrics_entry-back id e = rw (string_to_timestamp-printed e.snapshot_time) (λ i.
      some (record {
        id = id;
        instance_id = e.instance_id;
        exchange_name = e.exchange_name;
        snapshot_time = misread e.snapshot_time;
        connected = e.connected;
        uptime_seconds = double-back e.uptime_seconds i;
        reconnect_count = int64-back D e.reconnect_count i;
        heartbeat_failures = int64-back D e.heartbeat_failures i;
        websocket_disconnects = int64-back D e.websocket_disconnects i;
        messages_received = int64-back D e.messages_received i;
        messages_dropped = int64-back D e.messages_dropped i;
        parse_errors = int64-back D e.parse_errors i;
        feed_lag_ms = double-back e.feed_lag_ms i;
        exchange_latency_ms = double-back e.exchange_latency_ms i;
        stale = e.stale;
      }))

  pub queue_entry-back :
      (id : ℤ) (e : QueueEntry D)
      → read_queue_entry (stored id insert_queue_entry.columns (queue_entry_values e))
        ≡ some (record e { id = id; measured_at = misread e.measured_at })
  unfolding read_queue_entry queue_entry_values insert_queue_entry stored lookup
  queue_entry-back id e = rw (string_to_timestamp-printed e.measured_at) (λ i. some (record {
    id = id;
    instance_id = e.instance_id;
    measured_at = misread e.measured_at;
    incoming_depth = e.incoming_depth;
    outgoing_depth = e.outgoing_depth;
    serialization_depth = e.serialization_depth;
    max_incoming_depth = int64-back D e.max_incoming_depth i;
    max_outgoing_depth = int64-back D e.max_outgoing_depth i;
    max_serialization_depth = int64-back D e.max_serialization_depth i;
    overflow_count = int64-back D e.overflow_count i;
    backpressure = e.backpressure;
    wait_time_ms = double-back e.wait_time_ms i;
    processing_time_ms = double-back e.processing_time_ms i;
  }))

  pub system_metrics_entry-back :
      (id : ℤ) (e : SystemMetricsEntry D)
      → read_system_metrics_entry
          (stored id insert_system_metrics.columns (system_metrics_entry_values e))
        ≡ some (record e { id = id; measured_at = misread e.measured_at })
  unfolding read_system_metrics_entry system_metrics_entry_values insert_system_metrics stored
      lookup
  system_metrics_entry-back id e = rw (string_to_timestamp-printed e.measured_at) (λ i.
      some (record {
        id = id;
        instance_id = e.instance_id;
        measured_at = misread e.measured_at;
        cpu_usage_percent = double-back e.cpu_usage_percent i;
        memory_rss = int64-back D e.memory_rss i;
        peak_rss = int64-back D e.peak_rss i;
        virtual_memory = int64-back D e.virtual_memory i;
        heap_usage = int64-back D e.heap_usage i;
        memory_growth_rate = double-back e.memory_growth_rate i;
        thread_count = int64-back D e.thread_count i;
        uptime_seconds = double-back e.uptime_seconds i;
      }))

  pub network_metrics_entry-back :
      (id : ℤ) (e : NetworkMetricsEntry D)
      → read_network_metrics_entry
          (stored id insert_network_metrics.columns (network_metrics_entry_values e))
        ≡ some (record e { id = id; measured_at = misread e.measured_at })
  unfolding read_network_metrics_entry network_metrics_entry_values insert_network_metrics stored
      lookup
  network_metrics_entry-back id e = rw (string_to_timestamp-printed e.measured_at) (λ i.
      some (record {
        id = id;
        instance_id = e.instance_id;
        measured_at = misread e.measured_at;
        tcp_reconnects = int64-back D e.tcp_reconnects i;
        socket_errors = int64-back D e.socket_errors i;
        read_errors = int64-back D e.read_errors i;
        write_errors = int64-back D e.write_errors i;
        tls_handshake_failures = int64-back D e.tls_handshake_failures i;
        bytes_transmitted = int64-back D e.bytes_transmitted i;
        bytes_received = int64-back D e.bytes_received i;
        socket_rtt_ms = double-back e.socket_rtt_ms i;
        bandwidth_bps = double-back e.bandwidth_bps i;
        connection_failures = int64-back D e.connection_failures i;
      }))

  pub database_metrics_entry-back :
      (id : ℤ) (e : DatabaseMetricsEntry D)
      → read_database_metrics_entry
          (stored id insert_database_metrics.columns (database_metrics_entry_values e))
        ≡ some (record e { id = id; measured_at = misread e.measured_at })
  unfolding read_database_metrics_entry database_metrics_entry_values insert_database_metrics stored
      lookup
  database_metrics_entry-back id e = rw (string_to_timestamp-printed e.measured_at) (λ i.
      some (record {
        id = id;
        instance_id = e.instance_id;
        measured_at = misread e.measured_at;
        successful_writes = int64-back D e.successful_writes i;
        failed_writes = int64-back D e.failed_writes i;
        insert_latency_ms = double-back e.insert_latency_ms i;
        query_latency_ms = double-back e.query_latency_ms i;
        active_connections = int64-back D e.active_connections i;
        connection_failures = int64-back D e.connection_failures i;
        transaction_count = int64-back D e.transaction_count i;
        writes_per_sec = double-back e.writes_per_sec i;
        reads_per_sec = double-back e.reads_per_sec i;
        queue_waiting = int64-back D e.queue_waiting i;
      }))
