-- ===== src/Metrics/SnapshotConverter/Summary.antt =====
-- metrics/snapshot_converter.cpp: `to_db_snapshot`, the row of a whole snapshot.
use datafeed_server.Prelude.{
  ℕ, String, List, [], ◌∷◌, Option, none, some, add64, lookup, nat_key, get_or,
}
use datafeed_server.Prelude.Int.{pos, to_int64}
use datafeed_server.Metrics.LatencyTracker.{DoubleArithmetic}
use datafeed_server.Metrics.FeedHealth.{HealthStatus}
use datafeed_server.Metrics.Snapshot.{Snapshot, LatencyCategoryStats}
use datafeed_server.Database.Metrics.{Metrics, no_metrics}
use datafeed_server.Database.Summaries.{DbSnapshot}

unfoldable pub health_status_to_string : HealthStatus → String
health_status_to_string HealthStatus.healthy = "healthy"
health_status_to_string HealthStatus.degraded = "degraded"
health_status_to_string HealthStatus.critical = "critical"

-- the `switch` over the category
unfoldable pub category_name : ℕ → String
category_name k =
    get_or
      ("exchange" ∷ "parsing" ∷ "normalization" ∷ "processing" ∷ "broadcast" ∷ "serialization"
        ∷ "socket_send" ∷ "general" ∷ [])
      k ""

module _ (arithmetic : DoubleArithmetic) where
  open arithmetic use {Double, plus, floor}

  unfoldable pub named :
      List (ℕ × LatencyCategoryStats Double) → List (String × LatencyCategoryStats Double)
  unfolding category_name
  named [] = []
  named ((category, stats) ∷ rest) = (category_name category, stats) ∷ named rest

  unfoldable pub value_of :
      (LatencyCategoryStats Double → Double) → Option (LatencyCategoryStats Double) → Option Double
  value_of f none = none
  value_of f (some stats) = some (f stats)

  -- `set_latency`, for one of the three
  unfoldable pub latency :
      (LatencyCategoryStats Double → Double)
      → ℕ
      → List (ℕ × LatencyCategoryStats Double)
      → Option Double
  unfolding value_of
  latency f category stats = value_of f (lookup category stats)

  -- with `dump` of the JSON object that has an object for each category
  unfoldable pub to_metrics :
      (List (String × LatencyCategoryStats Double) → String) → Snapshot Double → Metrics Double
  unfolding latency named health_status_to_string no_metrics
  to_metrics dump s = record no_metrics {
    p50_latency_ms = latency (λ stats. stats.p50) 7 s.latency_stats;
    p95_latency_ms = latency (λ stats. stats.p95) 7 s.latency_stats;
    p99_latency_ms = latency (λ stats. stats.p99) 7 s.latency_stats;
    exchange_p50_ms = latency (λ stats. stats.p50) 0 s.latency_stats;
    exchange_p95_ms = latency (λ stats. stats.p95) 0 s.latency_stats;
    exchange_p99_ms = latency (λ stats. stats.p99) 0 s.latency_stats;
    parsing_p50_ms = latency (λ stats. stats.p50) 1 s.latency_stats;
    parsing_p95_ms = latency (λ stats. stats.p95) 1 s.latency_stats;
    parsing_p99_ms = latency (λ stats. stats.p99) 1 s.latency_stats;
    normalization_p50_ms = latency (λ stats. stats.p50) 2 s.latency_stats;
    normalization_p95_ms = latency (λ stats. stats.p95) 2 s.latency_stats;
    normalization_p99_ms = latency (λ stats. stats.p99) 2 s.latency_stats;
    processing_p50_ms = latency (λ stats. stats.p50) 3 s.latency_stats;
    processing_p95_ms = latency (λ stats. stats.p95) 3 s.latency_stats;
    processing_p99_ms = latency (λ stats. stats.p99) 3 s.latency_stats;
    broadcast_p50_ms = latency (λ stats. stats.p50) 4 s.latency_stats;
    broadcast_p95_ms = latency (λ stats. stats.p95) 4 s.latency_stats;
    broadcast_p99_ms = latency (λ stats. stats.p99) 4 s.latency_stats;
    serialization_p50_ms = latency (λ stats. stats.p50) 5 s.latency_stats;
    serialization_p95_ms = latency (λ stats. stats.p95) 5 s.latency_stats;
    serialization_p99_ms = latency (λ stats. stats.p99) 5 s.latency_stats;
    socket_send_p50_ms = latency (λ stats. stats.p50) 6 s.latency_stats;
    socket_send_p95_ms = latency (λ stats. stats.p95) 6 s.latency_stats;
    socket_send_p99_ms = latency (λ stats. stats.p99) 6 s.latency_stats;
    avg_latency_ms = latency (λ stats. stats.average) 7 s.latency_stats;
    latency_stats_jsonb = some (dump (named s.latency_stats));
    messages_per_sec = some (plus s.rates.messages_received_per_sec s.rates.messages_sent_per_sec);
    packets_per_sec = some (plus s.rates.packets_received_per_sec s.rates.packets_sent_per_sec);
    bytes_per_sec = some (plus s.rates.bytes_received_per_sec s.rates.bytes_sent_per_sec);
    ticks_per_sec = some s.rates.ticks_per_sec;
    trades_per_sec = some s.rates.trades_per_sec;
    orderbook_updates_per_sec = some s.rates.orderbook_updates_per_sec;
    broadcasts_per_sec = some s.rates.broadcasts_per_sec;
    subscriptions_per_sec = some s.rates.subscriptions_per_sec;
    database_writes_per_sec = some s.rates.database_writes_per_sec;
    database_reads_per_sec = some s.rates.database_reads_per_sec;
    total_messages =
        some (to_int64 (add64 s.totals.total_messages_received s.totals.total_messages_sent));
    total_packets =
        some (to_int64 (add64 s.totals.total_packets_received s.totals.total_packets_sent));
    total_bytes = some (to_int64 (add64 s.totals.total_bytes_received s.totals.total_bytes_sent));
    total_ticks = some (to_int64 s.totals.total_ticks);
    total_trades = some (to_int64 s.totals.total_trades);
    total_orderbook_updates = some (to_int64 s.totals.total_orderbook_updates);
    total_broadcasts = some (to_int64 s.totals.total_broadcasts);
    total_subscriptions = some (to_int64 s.totals.total_subscriptions);
    total_database_writes = some (to_int64 s.totals.total_database_writes);
    total_database_reads = some (to_int64 s.totals.total_database_reads);
    msgs_sent = some (to_int64 s.totals.total_messages_sent);
    msgs_received = some (to_int64 s.totals.total_messages_received);
    bytes_sent = some (to_int64 s.totals.total_bytes_sent);
    bytes_received = some (to_int64 s.totals.total_bytes_received);
    cpu_usage = some s.system.cpu_usage_percent;
    memory_usage = some (to_int64 s.system.memory_rss);
    thread_count = some (to_int64 s.system.thread_count);
    uptime_seconds = some (to_int64 (floor s.system.uptime_seconds));
    peak_rss = some (to_int64 s.system.peak_rss);
    virtual_memory = some (to_int64 s.system.virtual_memory);
    heap_usage = some (to_int64 s.system.heap_usage);
    memory_growth_rate = some s.system.memory_growth_rate;
    incoming_queue_depth = some (to_int64 s.queues.incoming_queue_depth);
    outgoing_queue_depth = some (to_int64 s.queues.outgoing_queue_depth);
    serialization_queue_depth = some (to_int64 s.queues.serialization_queue_depth);
    max_incoming_queue_depth = some (to_int64 s.queues.max_incoming_queue_depth);
    max_outgoing_queue_depth = some (to_int64 s.queues.max_outgoing_queue_depth);
    max_serialization_queue_depth = some (to_int64 s.queues.max_serialization_queue_depth);
    queue_overflow_count = some (to_int64 s.queues.queue_overflow_count);
    queue_wait_time_ms = some s.queues.queue_wait_time_ms;
    queue_processing_time_ms = some s.queues.queue_processing_time_ms;
    queue_backpressure = some s.queues.queue_backpressure;
    packet_drops = some (to_int64 s.health.packet_drops);
    duplicate_packets = some (to_int64 s.health.duplicate_packets);
    out_of_order_packets = some (to_int64 s.health.out_of_order_packets);
    sequence_gaps = some (to_int64 s.health.sequence_gaps);
    missing_ticks = some (to_int64 s.health.missing_ticks);
    invalid_messages = some (to_int64 s.health.invalid_messages);
    corrupted_packets = some (to_int64 s.health.corrupted_packets);
    parse_failures = some (to_int64 s.health.parse_failures);
    stale_feed = some s.health.stale_feed;
    feed_health_score = some (to_int64 s.health.feed_health_score);
    feed_health_status = some (health_status_to_string s.health.feed_health_status);
    active_clients = some (to_int64 s.sessions.active_clients);
    active_sessions = some (to_int64 s.sessions.active_sessions);
    active_subscriptions = some (to_int64 s.sessions.active_subscriptions);
    total_connections = some (to_int64 s.sessions.total_connections);
    total_disconnections = some (to_int64 s.sessions.total_disconnections);
    reconnect_count = some (to_int64 s.sessions.reconnect_count);
    authentication_failures = some (to_int64 s.sessions.authentication_failures);
    avg_session_duration_ms = some s.sessions.average_session_duration_ms;
    longest_session_duration_ms = some s.sessions.longest_session_duration_ms;
    tcp_reconnects = some (to_int64 s.network.tcp_reconnects);
    socket_errors = some (to_int64 s.network.socket_errors);
    read_errors = some (to_int64 s.network.read_errors);
    write_errors = some (to_int64 s.network.write_errors);
    tls_handshake_failures = some (to_int64 s.network.tls_handshake_failures);
    network_bytes_transmitted = some (to_int64 s.network.bytes_transmitted);
    network_bytes_received = some (to_int64 s.network.network_bytes_received);
    socket_rtt_ms = some s.network.socket_rtt_ms;
    network_bandwidth_bps = some s.network.network_bandwidth_bps;
    network_connection_failures = some (to_int64 s.network.connection_failures);
    db_successful_writes = some (to_int64 s.database.successful_writes);
    db_failed_writes = some (to_int64 s.database.failed_writes);
    db_insert_latency_ms = some s.database.insert_latency_ms;
    db_query_latency_ms = some s.database.query_latency_ms;
    db_active_connections = some (to_int64 s.database.active_db_connections);
    db_connection_failures = some (to_int64 s.database.db_connection_failures);
    db_transaction_count = some (to_int64 s.database.transaction_count);
    db_writes_per_sec = some s.database.writes_per_sec;
    db_reads_per_sec = some s.database.reads_per_sec;
    db_queue_waiting = some (to_int64 s.database.db_queue_waiting);
  }

  unfoldable pub to_db_snapshot :
      (List (String × LatencyCategoryStats Double) → String)
      → Snapshot Double
      → String
      → ℕ
      → DbSnapshot Double
  unfolding to_metrics
  to_db_snapshot dump s instance_id measured_at = record {
    id = pos 0;
    instance_id = instance_id;
    measured_at = measured_at;
    metrics = to_metrics dump s;
  }
