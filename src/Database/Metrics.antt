-- ===== src/Database/Metrics.antt =====
-- sadapter.h: the optional columns that struct FeedMetricsSnapshot and struct WeeklyMetricsSummary have alike.
-- A `double` is a value of a type `D`.
use datafeed_server.Prelude.{Bool, String, Option, none}
use datafeed_server.Prelude.Int.{ℤ}

pub record Metrics (D : Type 0) : Type 0 where
  pub p50_latency_ms : Option D
  pub p95_latency_ms : Option D
  pub p99_latency_ms : Option D
  pub avg_latency_ms : Option D
  pub drop_rate : Option D
  pub packet_loss_rate : Option D
  pub msgs_sent : Option ℤ
  pub msgs_received : Option ℤ
  pub bytes_sent : Option ℤ
  pub bytes_received : Option ℤ
  pub cpu_usage : Option D
  pub memory_usage : Option ℤ
  pub thread_count : Option ℤ
  pub event_loop_lag_ms : Option D
  pub uptime_seconds : Option ℤ
  pub exchange_p50_ms : Option D
  pub exchange_p95_ms : Option D
  pub exchange_p99_ms : Option D
  pub parsing_p50_ms : Option D
  pub parsing_p95_ms : Option D
  pub parsing_p99_ms : Option D
  pub normalization_p50_ms : Option D
  pub normalization_p95_ms : Option D
  pub normalization_p99_ms : Option D
  pub processing_p50_ms : Option D
  pub processing_p95_ms : Option D
  pub processing_p99_ms : Option D
  pub broadcast_p50_ms : Option D
  pub broadcast_p95_ms : Option D
  pub broadcast_p99_ms : Option D
  pub serialization_p50_ms : Option D
  pub serialization_p95_ms : Option D
  pub serialization_p99_ms : Option D
  pub socket_send_p50_ms : Option D
  pub socket_send_p95_ms : Option D
  pub socket_send_p99_ms : Option D
  pub latency_stats_jsonb : Option String
  pub messages_per_sec : Option D
  pub packets_per_sec : Option D
  pub bytes_per_sec : Option D
  pub ticks_per_sec : Option D
  pub trades_per_sec : Option D
  pub orderbook_updates_per_sec : Option D
  pub broadcasts_per_sec : Option D
  pub subscriptions_per_sec : Option D
  pub database_writes_per_sec : Option D
  pub database_reads_per_sec : Option D
  pub total_messages : Option ℤ
  pub total_packets : Option ℤ
  pub total_bytes : Option ℤ
  pub total_ticks : Option ℤ
  pub total_trades : Option ℤ
  pub total_orderbook_updates : Option ℤ
  pub total_broadcasts : Option ℤ
  pub total_subscriptions : Option ℤ
  pub total_database_writes : Option ℤ
  pub total_database_reads : Option ℤ
  pub incoming_queue_depth : Option ℤ
  pub outgoing_queue_depth : Option ℤ
  pub serialization_queue_depth : Option ℤ
  pub max_incoming_queue_depth : Option ℤ
  pub max_outgoing_queue_depth : Option ℤ
  pub max_serialization_queue_depth : Option ℤ
  pub queue_overflow_count : Option ℤ
  pub queue_wait_time_ms : Option D
  pub queue_processing_time_ms : Option D
  pub queue_backpressure : Option Bool
  pub packet_drops : Option ℤ
  pub duplicate_packets : Option ℤ
  pub out_of_order_packets : Option ℤ
  pub sequence_gaps : Option ℤ
  pub missing_ticks : Option ℤ
  pub invalid_messages : Option ℤ
  pub corrupted_packets : Option ℤ
  pub parse_failures : Option ℤ
  pub stale_feed : Option Bool
  pub feed_health_score : Option ℤ
  pub feed_health_status : Option String
  pub active_clients : Option ℤ
  pub active_sessions : Option ℤ
  pub active_subscriptions : Option ℤ
  pub total_connections : Option ℤ
  pub total_disconnections : Option ℤ
  pub reconnect_count : Option ℤ
  pub authentication_failures : Option ℤ
  pub avg_session_duration_ms : Option D
  pub longest_session_duration_ms : Option D
  pub tcp_reconnects : Option ℤ
  pub socket_errors : Option ℤ
  pub read_errors : Option ℤ
  pub write_errors : Option ℤ
  pub tls_handshake_failures : Option ℤ
  pub network_bytes_transmitted : Option ℤ
  pub network_bytes_received : Option ℤ
  pub socket_rtt_ms : Option D
  pub network_bandwidth_bps : Option D
  pub network_connection_failures : Option ℤ
  pub db_successful_writes : Option ℤ
  pub db_failed_writes : Option ℤ
  pub db_insert_latency_ms : Option D
  pub db_query_latency_ms : Option D
  pub db_active_connections : Option ℤ
  pub db_connection_failures : Option ℤ
  pub db_transaction_count : Option ℤ
  pub db_writes_per_sec : Option D
  pub db_reads_per_sec : Option D
  pub db_queue_waiting : Option ℤ
  pub peak_rss : Option ℤ
  pub virtual_memory : Option ℤ
  pub heap_usage : Option ℤ
  pub memory_growth_rate : Option D

-- a default-constructed struct
unfoldable pub no_metrics : {D : Type 0} → Metrics D
no_metrics = record {
  p50_latency_ms = none;
  p95_latency_ms = none;
  p99_latency_ms = none;
  avg_latency_ms = none;
  drop_rate = none;
  packet_loss_rate = none;
  msgs_sent = none;
  msgs_received = none;
  bytes_sent = none;
  bytes_received = none;
  cpu_usage = none;
  memory_usage = none;
  thread_count = none;
  event_loop_lag_ms = none;
  uptime_seconds = none;
  exchange_p50_ms = none;
  exchange_p95_ms = none;
  exchange_p99_ms = none;
  parsing_p50_ms = none;
  parsing_p95_ms = none;
  parsing_p99_ms = none;
  normalization_p50_ms = none;
  normalization_p95_ms = none;
  normalization_p99_ms = none;
  processing_p50_ms = none;
  processing_p95_ms = none;
  processing_p99_ms = none;
  broadcast_p50_ms = none;
  broadcast_p95_ms = none;
  broadcast_p99_ms = none;
  serialization_p50_ms = none;
  serialization_p95_ms = none;
  serialization_p99_ms = none;
  socket_send_p50_ms = none;
  socket_send_p95_ms = none;
  socket_send_p99_ms = none;
  latency_stats_jsonb = none;
  messages_per_sec = none;
  packets_per_sec = none;
  bytes_per_sec = none;
  ticks_per_sec = none;
  trades_per_sec = none;
  orderbook_updates_per_sec = none;
  broadcasts_per_sec = none;
  subscriptions_per_sec = none;
  database_writes_per_sec = none;
  database_reads_per_sec = none;
  total_messages = none;
  total_packets = none;
  total_bytes = none;
  total_ticks = none;
  total_trades = none;
  total_orderbook_updates = none;
  total_broadcasts = none;
  total_subscriptions = none;
  total_database_writes = none;
  total_database_reads = none;
  incoming_queue_depth = none;
  outgoing_queue_depth = none;
  serialization_queue_depth = none;
  max_incoming_queue_depth = none;
  max_outgoing_queue_depth = none;
  max_serialization_queue_depth = none;
  queue_overflow_count = none;
  queue_wait_time_ms = none;
  queue_processing_time_ms = none;
  queue_backpressure = none;
  packet_drops = none;
  duplicate_packets = none;
  out_of_order_packets = none;
  sequence_gaps = none;
  missing_ticks = none;
  invalid_messages = none;
  corrupted_packets = none;
  parse_failures = none;
  stale_feed = none;
  feed_health_score = none;
  feed_health_status = none;
  active_clients = none;
  active_sessions = none;
  active_subscriptions = none;
  total_connections = none;
  total_disconnections = none;
  reconnect_count = none;
  authentication_failures = none;
  avg_session_duration_ms = none;
  longest_session_duration_ms = none;
  tcp_reconnects = none;
  socket_errors = none;
  read_errors = none;
  write_errors = none;
  tls_handshake_failures = none;
  network_bytes_transmitted = none;
  network_bytes_received = none;
  socket_rtt_ms = none;
  network_bandwidth_bps = none;
  network_connection_failures = none;
  db_successful_writes = none;
  db_failed_writes = none;
  db_insert_latency_ms = none;
  db_query_latency_ms = none;
  db_active_connections = none;
  db_connection_failures = none;
  db_transaction_count = none;
  db_writes_per_sec = none;
  db_reads_per_sec = none;
  db_queue_waiting = none;
  peak_rss = none;
  virtual_memory = none;
  heap_usage = none;
  memory_growth_rate = none;
}
