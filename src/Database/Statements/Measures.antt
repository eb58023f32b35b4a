-- ===== src/Database/Statements/Measures.antt =====
-- sadapter.cpp, `prepare_monitoring_statements`: the INSERTs into the tables of metrics.
use datafeed_server.Prelude.{String, List, [], ◌∷◌}
use datafeed_server.Database.Statements.Texts.{Insert, placeholders}

-- the columns that two tables have alike
unfoldable pub metric_columns : List String
metric_columns =
    "p50_latency_ms" ∷ "p95_latency_ms" ∷ "p99_latency_ms" ∷ "avg_latency_ms" ∷ "drop_rate"
    ∷ "packet_loss_rate" ∷ "msgs_sent" ∷ "msgs_received" ∷ "bytes_sent" ∷ "bytes_received"
    ∷ "cpu_usage" ∷ "memory_usage" ∷ "thread_count" ∷ "event_loop_lag_ms" ∷ "uptime_seconds"
    ∷ "exchange_p50_ms" ∷ "exchange_p95_ms" ∷ "exchange_p99_ms" ∷ "parsing_p50_ms"
    ∷ "parsing_p95_ms" ∷ "parsing_p99_ms" ∷ "normalization_p50_ms" ∷ "normalization_p95_ms"
    ∷ "normalization_p99_ms" ∷ "processing_p50_ms" ∷ "processing_p95_ms" ∷ "processing_p99_ms"
    ∷ "broadcast_p50_ms" ∷ "broadcast_p95_ms" ∷ "broadcast_p99_ms" ∷ "serialization_p50_ms"
    ∷ "serialization_p95_ms" ∷ "serialization_p99_ms" ∷ "socket_send_p50_ms" ∷ "socket_send_p95_ms"
    ∷ "socket_send_p99_ms" ∷ "latency_stats_jsonb" ∷ "messages_per_sec" ∷ "packets_per_sec"
    ∷ "bytes_per_sec" ∷ "ticks_per_sec" ∷ "trades_per_sec" ∷ "orderbook_updates_per_sec"
    ∷ "broadcasts_per_sec" ∷ "subscriptions_per_sec" ∷ "database_writes_per_sec"
    ∷ "database_reads_per_sec" ∷ "total_messages" ∷ "total_packets" ∷ "total_bytes" ∷ "total_ticks"
    ∷ "total_trades" ∷ "total_orderbook_updates" ∷ "total_broadcasts" ∷ "incoming_queue_depth"
    ∷ "outgoing_queue_depth" ∷ "serialization_queue_depth" ∷ "max_incoming_queue_depth"
    ∷ "max_outgoing_queue_depth" ∷ "max_serialization_queue_depth" ∷ "queue_overflow_count"
    ∷ "queue_wait_time_ms" ∷ "queue_processing_time_ms" ∷ "queue_backpressure" ∷ "packet_drops"
    ∷ "duplicate_packets" ∷ "out_of_order_packets" ∷ "sequence_gaps" ∷ "missing_ticks"
    ∷ "invalid_messages" ∷ "corrupted_packets" ∷ "parse_failures" ∷ "stale_feed"
    ∷ "feed_health_score" ∷ "feed_health_status" ∷ "active_clients" ∷ "active_sessions"
    ∷ "active_subscriptions" ∷ "total_connections" ∷ "total_disconnections" ∷ "reconnect_count"
    ∷ "authentication_failures" ∷ "avg_session_duration_ms" ∷ "longest_session_duration_ms"
    ∷ "tcp_reconnects" ∷ "socket_errors" ∷ "read_errors" ∷ "write_errors" ∷ "tls_handshake_failures"
    ∷ "network_bytes_transmitted" ∷ "network_bytes_received" ∷ "socket_rtt_ms"
    ∷ "network_bandwidth_bps" ∷ "network_connection_failures" ∷ "db_successful_writes"
    ∷ "db_failed_writes" ∷ "db_insert_latency_ms" ∷ "db_query_latency_ms" ∷ "db_active_connections"
    ∷ "db_connection_failures" ∷ "db_transaction_count" ∷ "db_writes_per_sec" ∷ "db_reads_per_sec"
    ∷ "db_queue_waiting" ∷ "peak_rss" ∷ "virtual_memory" ∷ "heap_usage" ∷ "memory_growth_rate"
    ∷ "total_subscriptions" ∷ "total_database_writes" ∷ "total_database_reads" ∷ []

unfoldable pub insert_snapshot : Insert
unfolding placeholders metric_columns
insert_snapshot = record {
  name = "insert_snapshot";
  table = "feed_metrics_snapshots";
  columns = "instance_id" ∷ "measured_at" ∷ metric_columns;
  values = placeholders 117;
  returning = "id";
}

unfoldable pub insert_exchange_metrics : Insert
unfolding placeholders
insert_exchange_metrics = record {
  name = "insert_exchange_metrics";
  table = "exchange_metrics_history";
  columns =
      "instance_id" ∷ "exchange_name" ∷ "snapshot_time" ∷ "connected" ∷ "uptime_seconds"
      ∷ "reconnect_count" ∷ "heartbeat_failures" ∷ "websocket_disconnects" ∷ "messages_received"
      ∷ "messages_dropped" ∷ "parse_errors" ∷ "feed_lag_ms" ∷ "exchange_latency_ms" ∷ "stale" ∷ [];
  values = placeholders 14;
  returning = "id";
}

unfoldable pub insert_queue_entry : Insert
unfolding placeholders
insert_queue_entry = record {
  name = "insert_queue_entry";
  table = "queue_history";
  columns =
      "instance_id" ∷ "measured_at" ∷ "incoming_depth" ∷ "outgoing_depth" ∷ "serialization_depth"
      ∷ "max_incoming_depth" ∷ "max_outgoing_depth" ∷ "max_serialization_depth" ∷ "overflow_count"
      ∷ "backpressure" ∷ "wait_time_ms" ∷ "processing_time_ms" ∷ [];
  values = placeholders 12;
  returning = "id";
}

unfoldable pub insert_system_metrics : Insert
unfolding placeholders
insert_system_metrics = record {
  name = "insert_system_metrics";
  table = "system_metrics_history";
  columns =
      "instance_id" ∷ "measured_at" ∷ "cpu_usage_percent" ∷ "memory_rss" ∷ "peak_rss"
      ∷ "virtual_memory" ∷ "heap_usage" ∷ "memory_growth_rate" ∷ "thread_count" ∷ "uptime_seconds"
      ∷ [];
  values = placeholders 10;
  returning = "id";
}

unfoldable pub insert_network_metrics : Insert
unfolding placeholders
insert_network_metrics = record {
  name = "insert_network_metrics";
  table = "network_metrics_history";
  columns =
      "instance_id" ∷ "measured_at" ∷ "tcp_reconnects" ∷ "socket_errors" ∷ "read_errors"
      ∷ "write_errors" ∷ "tls_handshake_failures" ∷ "bytes_transmitted" ∷ "bytes_received"
      ∷ "socket_rtt_ms" ∷ "bandwidth_bps" ∷ "connection_failures" ∷ [];
  values = placeholders 12;
  returning = "id";
}

unfoldable pub insert_database_metrics : Insert
unfolding placeholders
insert_database_metrics = record {
  name = "insert_database_metrics";
  table = "database_metrics_history";
  columns =
      "instance_id" ∷ "measured_at" ∷ "successful_writes" ∷ "failed_writes" ∷ "insert_latency_ms"
      ∷ "query_latency_ms" ∷ "active_connections" ∷ "connection_failures" ∷ "transaction_count"
      ∷ "writes_per_sec" ∷ "reads_per_sec" ∷ "queue_waiting" ∷ [];
  values = placeholders 12;
  returning = "id";
}

unfoldable pub insert_weekly_summary : Insert
unfolding placeholders metric_columns
insert_weekly_summary = record {
  name = "insert_weekly_summary";
  table = "weekly_metrics_summary";
  columns = "instance_id" ∷ "week_start" ∷ "sample_count" ∷ metric_columns;
  values = placeholders 114;
  returning = "id";
}
