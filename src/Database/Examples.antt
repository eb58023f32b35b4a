-- ===== src/Database/Examples.antt =====
-- The theorems on sadapter.cpp at some rows, and at a database of lists.
use datafeed_server.Prelude.{refl, ℕ, true, false, ◌&&◌, [], none, some, ◌≡◌}
use datafeed_server.Prelude.Int.{pos}
use datafeed_server.Database.Metrics.{no_metrics}
use datafeed_server.Database.Summaries.{DbSnapshot, WeeklySummary}
use datafeed_server.Database.History.{
  ExchangeMetricsEntry, QueueEntry, SystemMetricsEntry, NetworkMetricsEntry, DatabaseMetricsEntry,
}
use datafeed_server.Database.ReadBack.Times.{misread}
use datafeed_server.Database.Adapter.{SAdapter, connect, create_feed_metrics_snapshot}
use datafeed_server.Database.Refused.{snapshots-refused}
use datafeed_server.Database.Store.{listed}

abbrev snapshot : DbSnapshot ℕ
snapshot = record { id = pos 0; instance_id = "live-1"; measured_at = 5; metrics = no_metrics }

abbrev empty : SAdapter listed
empty = record { is_connected = true; tables = [] }

snapshots-refused_example :
    (create_feed_metrics_snapshot listed snapshot empty ≡ (none, empty))
    × (((connect listed true empty).0 && listed.asked_at_once) ≡ false)
snapshots-refused_example = snapshots-refused listed snapshot true empty

abbrev week : WeeklySummary ℕ
week = record {
  id = pos 0;
  instance_id = "live-1";
  week_start = 345600000;
  sample_count = pos 672;
  metrics = no_metrics;
}

abbrev exchange_metrics_entry : ExchangeMetricsEntry ℕ
exchange_metrics_entry = record {
  id = pos 3;
  instance_id = "BINANCE";
  exchange_name = "BINANCE";
  snapshot_time = 1500;
  connected = true;
  uptime_seconds = some 7;
  reconnect_count = some (pos 3);
  heartbeat_failures = some (pos 3);
  websocket_disconnects = some (pos 3);
  messages_received = some (pos 3);
  messages_dropped = some (pos 3);
  parse_errors = some (pos 3);
  feed_lag_ms = some 7;
  exchange_latency_ms = some 7;
  stale = true;
}

abbrev queue_entry : QueueEntry ℕ
queue_entry = record {
  id = pos 3;
  instance_id = "BINANCE";
  measured_at = 1500;
  incoming_depth = pos 3;
  outgoing_depth = pos 3;
  serialization_depth = pos 3;
  max_incoming_depth = some (pos 3);
  max_outgoing_depth = some (pos 3);
  max_serialization_depth = some (pos 3);
  overflow_count = some (pos 3);
  backpressure = true;
  wait_time_ms = some 7;
  processing_time_ms = some 7;
}

abbrev system_metrics_entry : SystemMetricsEntry ℕ
system_metrics_entry = record {
  id = pos 3;
  instance_id = "BINANCE";
  measured_at = 1500;
  cpu_usage_percent = some 7;
  memory_rss = some (pos 3);
  peak_rss = some (pos 3);
  virtual_memory = some (pos 3);
  heap_usage = some (pos 3);
  memory_growth_rate = some 7;
  thread_count = some (pos 3);
  uptime_seconds = some 7;
}

abbrev network_metrics_entry : NetworkMetricsEntry ℕ
network_metrics_entry = record {
  id = pos 3;
  instance_id = "BINANCE";
  measured_at = 1500;
  tcp_reconnects = some (pos 3);
  socket_errors = some (pos 3);
  read_errors = some (pos 3);
  write_errors = some (pos 3);
  tls_handshake_failures = some (pos 3);
  bytes_transmitted = some (pos 3);
  bytes_received = some (pos 3);
  socket_rtt_ms = some 7;
  bandwidth_bps = some 7;
  connection_failures = some (pos 3);
}

abbrev database_metrics_entry : DatabaseMetricsEntry ℕ
database_metrics_entry = record {
  id = pos 3;
  instance_id = "BINANCE";
  measured_at = 1500;
  successful_writes = some (pos 3);
  failed_writes = some (pos 3);
  insert_latency_ms = some 7;
  query_latency_ms = some 7;
  active_connections = some (pos 3);
  connection_failures = some (pos 3);
  transaction_count = some (pos 3);
  writes_per_sec = some 7;
  reads_per_sec = some 7;
  queue_waiting = some (pos 3);
}

-- half a second after a second
half_a_second : misread 1783252800500 ≡ 1783252800005
unfolding misread
half_a_second = refl
