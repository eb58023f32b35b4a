-- ===== src/Metrics/Snapshot.antt =====
-- metrics/metrics_collector.h, struct FeedMetricsSnapshot: what the server reports of itself at one moment. Its
-- fields keep the struct's names and stand in a record for each part that the struct's comments name.
-- A `double` is a value of a type `D`; a category of latencies is its number.
use datafeed_server.Prelude.{ℕ, Bool, false, String, List, []}
use datafeed_server.Metrics.FeedHealth.{HealthStatus}
use datafeed_server.Metrics.ExchangeMonitor.{ExchangeStats}

pub record LatencyCategoryStats (D : Type 0) : Type 0 where
  pub average : D
  pub min : D
  pub max : D
  pub p50 : D
  pub p95 : D
  pub p99 : D
  pub count : ℕ

pub record Rates (D : Type 0) : Type 0 where
  pub messages_received_per_sec : D
  pub messages_sent_per_sec : D
  pub bytes_received_per_sec : D
  pub bytes_sent_per_sec : D
  pub packets_received_per_sec : D
  pub packets_sent_per_sec : D
  pub ticks_per_sec : D
  pub trades_per_sec : D
  pub orderbook_updates_per_sec : D
  pub subscriptions_per_sec : D
  pub broadcasts_per_sec : D
  pub database_writes_per_sec : D
  pub database_reads_per_sec : D

pub record Totals : Type 0 where
  pub total_messages_received : ℕ
  pub total_messages_sent : ℕ
  pub total_bytes_received : ℕ
  pub total_bytes_sent : ℕ
  pub total_packets_received : ℕ
  pub total_packets_sent : ℕ
  pub total_ticks : ℕ
  pub total_trades : ℕ
  pub total_orderbook_updates : ℕ
  pub total_subscriptions : ℕ
  pub total_broadcasts : ℕ
  pub total_database_writes : ℕ
  pub total_database_reads : ℕ

pub record System (D : Type 0) : Type 0 where
  pub cpu_usage_percent : D
  pub memory_rss : ℕ
  pub peak_rss : ℕ
  pub virtual_memory : ℕ
  pub heap_usage : ℕ
  pub memory_growth_rate : D
  pub thread_count : ℕ
  pub uptime_seconds : D

pub record Queues (D : Type 0) : Type 0 where
  pub incoming_queue_depth : ℕ
  pub outgoing_queue_depth : ℕ
  pub serialization_queue_depth : ℕ
  pub max_incoming_queue_depth : ℕ
  pub max_outgoing_queue_depth : ℕ
  pub max_serialization_queue_depth : ℕ
  pub queue_overflow_count : ℕ
  pub queue_backpressure : Bool
  pub queue_wait_time_ms : D
  pub queue_processing_time_ms : D

pub record Health : Type 0 where
  pub packet_drops : ℕ
  pub duplicate_packets : ℕ
  pub out_of_order_packets : ℕ
  pub sequence_gaps : ℕ
  pub missing_ticks : ℕ
  pub invalid_messages : ℕ
  pub corrupted_packets : ℕ
  pub parse_failures : ℕ
  pub stale_feed : Bool
  pub feed_health_score : ℕ
  pub feed_health_status : HealthStatus

pub record Sessions (D : Type 0) : Type 0 where
  pub active_clients : ℕ
  pub active_sessions : ℕ
  pub active_subscriptions : ℕ
  pub total_connections : ℕ
  pub total_disconnections : ℕ
  pub authentication_failures : ℕ
  pub reconnect_count : ℕ
  pub average_session_duration_ms : D
  pub longest_session_duration_ms : D

pub record Network (D : Type 0) : Type 0 where
  pub tcp_reconnects : ℕ
  pub socket_errors : ℕ
  pub read_errors : ℕ
  pub write_errors : ℕ
  pub tls_handshake_failures : ℕ
  pub bytes_transmitted : ℕ
  pub network_bytes_received : ℕ
  pub socket_rtt_ms : D
  pub network_bandwidth_bps : D
  pub connection_failures : ℕ

pub record Database (D : Type 0) : Type 0 where
  pub successful_writes : ℕ
  pub failed_writes : ℕ
  pub insert_latency_ms : D
  pub query_latency_ms : D
  pub active_db_connections : ℕ
  pub db_connection_failures : ℕ
  pub transaction_count : ℕ
  pub writes_per_sec : D
  pub reads_per_sec : D
  pub db_queue_waiting : ℕ

pub record Snapshot (D : Type 0) : Type 0 where
  pub latency_stats : List (ℕ × LatencyCategoryStats D)
  pub rates : Rates D
  pub totals : Totals
  pub system : System D
  pub queues : Queues D
  pub health : Health
  pub sessions : Sessions D
  pub network : Network D
  pub database : Database D
  pub exchange_stats : List (String × ExchangeStats D)

-- `FeedMetricsSnapshot out{}`
unfoldable pub blank : {D : Type 0} → D → Snapshot D
blank nought = record {
  latency_stats = [];
  rates = record {
    messages_received_per_sec = nought;
    messages_sent_per_sec = nought;
    bytes_received_per_sec = nought;
    bytes_sent_per_sec = nought;
    packets_received_per_sec = nought;
    packets_sent_per_sec = nought;
    ticks_per_sec = nought;
    trades_per_sec = nought;
    orderbook_updates_per_sec = nought;
    subscriptions_per_sec = nought;
    broadcasts_per_sec = nought;
    database_writes_per_sec = nought;
    database_reads_per_sec = nought;
  };
  totals = record {
    total_messages_received = 0;
    total_messages_sent = 0;
    total_bytes_received = 0;
    total_bytes_sent = 0;
    total_packets_received = 0;
    total_packets_sent = 0;
    total_ticks = 0;
    total_trades = 0;
    total_orderbook_updates = 0;
    total_subscriptions = 0;
    total_broadcasts = 0;
    total_database_writes = 0;
    total_database_reads = 0;
  };
  system = record {
    cpu_usage_percent = nought;
    memory_rss = 0;
    peak_rss = 0;
    virtual_memory = 0;
    heap_usage = 0;
    memory_growth_rate = nought;
    thread_count = 0;
    uptime_seconds = nought;
  };
  queues = record {
    incoming_queue_depth = 0;
    outgoing_queue_depth = 0;
    serialization_queue_depth = 0;
    max_incoming_queue_depth = 0;
    max_outgoing_queue_depth = 0;
    max_serialization_queue_depth = 0;
    queue_overflow_count = 0;
    queue_backpressure = false;
    queue_wait_time_ms = nought;
    queue_processing_time_ms = nought;
  };
  health = record {
    packet_drops = 0;
    duplicate_packets = 0;
    out_of_order_packets = 0;
    sequence_gaps = 0;
    missing_ticks = 0;
    invalid_messages = 0;
    corrupted_packets = 0;
    parse_failures = 0;
    stale_feed = false;
    feed_health_score = 0;
    feed_health_status = HealthStatus.healthy;
  };
  sessions = record {
    active_clients = 0;
    active_sessions = 0;
    active_subscriptions = 0;
    total_connections = 0;
    total_disconnections = 0;
    authentication_failures = 0;
    reconnect_count = 0;
    average_session_duration_ms = nought;
    longest_session_duration_ms = nought;
  };
  network = record {
    tcp_reconnects = 0;
    socket_errors = 0;
    read_errors = 0;
    write_errors = 0;
    tls_handshake_failures = 0;
    bytes_transmitted = 0;
    network_bytes_received = 0;
    socket_rtt_ms = nought;
    network_bandwidth_bps = nought;
    connection_failures = 0;
  };
  database = record {
    successful_writes = 0;
    failed_writes = 0;
    insert_latency_ms = nought;
    query_latency_ms = nought;
    active_db_connections = 0;
    db_connection_failures = 0;
    transaction_count = 0;
    writes_per_sec = nought;
    reads_per_sec = nought;
    db_queue_waiting = 0;
  };
  exchange_stats = [];
}
