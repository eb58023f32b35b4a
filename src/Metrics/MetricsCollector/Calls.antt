-- ===== src/Metrics/MetricsCollector/Calls.antt =====
-- metrics/metrics_collector.h and metrics/metrics_collector.cpp: the methods of class MetricsCollector that
-- change a monitor, and to which methods of the monitors they forward. The times that clocks return in a
-- call, and the latency that a measurement comes to, are arguments of it.
use datafeed_server.Prelude.{ℕ, Bool, String, List, [], ◌∷◌}
use datafeed_server.Metrics.LatencyTracker as LatencyPart
use datafeed_server.Metrics.ThroughputTracker as ThroughputPart
use datafeed_server.Metrics.ExchangeMonitor as ExchangePart
use datafeed_server.Metrics.QueueMonitor as QueuePart
use datafeed_server.Metrics.FeedHealth as HealthPart
use datafeed_server.Metrics.SessionMonitor as SessionPart
use datafeed_server.Metrics.NetworkMonitor as NetworkPart
use datafeed_server.Metrics.DatabaseMonitor as DatabasePart
use datafeed_server.Metrics.LatencyTracker.{DoubleArithmetic}
use datafeed_server.Metrics.SystemMonitor.{Readings}

module _ (arithmetic : DoubleArithmetic) where
  open arithmetic use {Double}

  -- the methods that change a monitor
  pub data Call : Type 0 where
    on_message_received : ℕ → Call
    on_message_sent : ℕ → Call
    end_latency_measurement : Double → Call
    end_category_measurement : Double → ℕ → Call
    on_client_connected : Call
    on_client_disconnected : Call
    on_session_created : Call
    on_session_removed : Call
    on_subscription_created : Call
    on_subscription_removed : Call
    on_packet_dropped : Call
    on_duplicate_packet : Call
    on_out_of_order_packet : Call
    on_parse_error : Call
    on_reconnect : Call
    on_exchange_connected : String → ℕ → ℕ → ℕ → Call
    on_exchange_disconnected : String → ℕ → Call
    on_exchange_heartbeat : String → ℕ → Call
    on_exchange_heartbeat_failure : String → Call
    on_exchange_message_received : String → ℕ → Call
    on_exchange_message_dropped : String → Call
    on_exchange_parse_error : String → Call
    on_exchange_web_socket_disconnect : String → Call
    on_exchange_reconnect : String → Call
    update_exchange_feed_lag : String → Double → Call
    update_exchange_latency : String → Double → Call
    increment_incoming_queue : Call
    decrement_incoming_queue : Call
    set_incoming_queue_depth : ℕ → Call
    increment_outgoing_queue : Call
    decrement_outgoing_queue : Call
    set_outgoing_queue_depth : ℕ → Call
    increment_serialization_queue : Call
    decrement_serialization_queue : Call
    set_serialization_queue_depth : ℕ → Call
    on_queue_overflow : Call
    set_queue_backpressure : Bool → Call
    record_queue_wait_time : Double → Call
    record_queue_processing_time : Double → Call
    on_feed_packet_drop : Call
    on_feed_duplicate_packet : Call
    on_feed_out_of_order_packet : Call
    on_feed_sequence_gap : Call
    on_feed_missing_tick : Call
    on_feed_invalid_message : Call
    on_feed_corrupted_packet : Call
    on_feed_parse_failure : Call
    mark_feed_stale : Bool → Call
    on_session_client_connected : String → Call
    on_session_client_disconnected : String → Call
    on_session_authentication_failure : String → Call
    on_session_reconnect : String → Call
    on_network_tcp_reconnect : Call
    on_network_socket_error : Call
    on_network_read_error : Call
    on_network_write_error : Call
    on_network_tls_handshake_failure : Call
    on_network_bytes_transmitted : ℕ → Call
    on_network_bytes_received : ℕ → Call
    update_network_socket_rtt : Double → Call
    update_network_bandwidth : Double → Call
    on_network_connection_failure : Call
    on_database_successful_write : Call
    on_database_failed_write : Call
    record_database_insert_latency : Double → Call
    record_database_query_latency : Double → Call
    set_database_active_connections : ℕ → Call
    on_database_connection_failure : Call
    on_database_transaction : Call
    set_database_writes_per_sec : Double → Call
    set_database_reads_per_sec : Double → Call
    set_database_queue_waiting : ℕ → Call
    on_tick : Call
    on_trade : Call
    on_orderbook_update : Call
    on_subscription : Call
    on_broadcast : Call
    on_database_write : Call
    on_database_read : Call
    update_cpu_usage : ℕ → Readings → Call
    reset : ℕ → Call

  -- what a method does to one part, and `reset`, which does something to each, with the time
  pub data Effect : Type 0 where
    latency : LatencyPart.Call arithmetic → Effect
    throughput : ThroughputPart.Call → Effect
    system_update : ℕ → Readings → Effect
    exchange : ExchangePart.Call Double → Effect
    queue : QueuePart.Call Double → Effect
    health : HealthPart.Call → Effect
    session : SessionPart.Call → Effect
    network : NetworkPart.Call Double → Effect
    database : DatabasePart.Call Double → Effect
    parse_error reconnect : Effect
    reset_all : ℕ → Effect

  unfoldable pub forward : Call → List Effect
  forward (Call.on_message_received n) =
      Effect.throughput (ThroughputPart.Call.message_received n 1) ∷ []
  forward (Call.on_message_sent n) = Effect.throughput (ThroughputPart.Call.message_sent n 1) ∷ []
  forward (Call.end_latency_measurement x) = Effect.latency (LatencyPart.Call.ends x 7) ∷ []
  forward (Call.end_category_measurement x k) = Effect.latency (LatencyPart.Call.ends x k) ∷ []
  forward Call.on_client_connected = Effect.session (SessionPart.Call.client_connected "") ∷ []
  forward Call.on_client_disconnected =
      Effect.session (SessionPart.Call.client_disconnected "") ∷ []
  forward Call.on_session_created = Effect.session SessionPart.Call.session_created ∷ []
  forward Call.on_session_removed = Effect.session SessionPart.Call.session_removed ∷ []
  forward Call.on_subscription_created = Effect.session SessionPart.Call.subscription_created ∷ []
  forward Call.on_subscription_removed = Effect.session SessionPart.Call.subscription_removed ∷ []
  forward Call.on_packet_dropped = Effect.health HealthPart.Call.packet_drop ∷ []
  forward Call.on_duplicate_packet = Effect.health HealthPart.Call.duplicate_packet ∷ []
  forward Call.on_out_of_order_packet = Effect.health HealthPart.Call.out_of_order_packet ∷ []
  forward Call.on_parse_error =
      Effect.parse_error ∷ Effect.health HealthPart.Call.parse_failure ∷ []
  forward Call.on_reconnect = Effect.reconnect ∷ []
  forward (Call.on_exchange_connected e a b c) =
      Effect.exchange (ExchangePart.Call.connected e a b c) ∷ []
  forward (Call.on_exchange_disconnected e a) =
      Effect.exchange (ExchangePart.Call.disconnected e a) ∷ []
  forward (Call.on_exchange_heartbeat e a) = Effect.exchange (ExchangePart.Call.heartbeat e a) ∷ []
  forward (Call.on_exchange_heartbeat_failure e) =
      Effect.exchange (ExchangePart.Call.heartbeat_failure e) ∷ []
  forward (Call.on_exchange_message_received e a) =
      Effect.exchange (ExchangePart.Call.message_received e a) ∷ []
  forward (Call.on_exchange_message_dropped e) =
      Effect.exchange (ExchangePart.Call.message_dropped e) ∷ []
  forward (Call.on_exchange_parse_error e) = Effect.exchange (ExchangePart.Call.parse_error e) ∷ []
  forward (Call.on_exchange_web_socket_disconnect e) =
      Effect.exchange (ExchangePart.Call.websocket_disconnect e) ∷ []
  forward (Call.on_exchange_reconnect e) = Effect.exchange (ExchangePart.Call.reconnect e) ∷ []
  forward (Call.update_exchange_feed_lag e x) =
      Effect.exchange (ExchangePart.Call.feed_lag e x) ∷ []
  forward (Call.update_exchange_latency e x) =
      Effect.exchange (ExchangePart.Call.exchange_latency e x) ∷ []
  forward Call.increment_incoming_queue =
      Effect.queue (QueuePart.Call.increments QueuePart.Queue.incoming) ∷ []
  forward Call.decrement_incoming_queue =
      Effect.queue (QueuePart.Call.decrements QueuePart.Queue.incoming) ∷ []
  forward (Call.set_incoming_queue_depth n) =
      Effect.queue (QueuePart.Call.sets QueuePart.Queue.incoming n) ∷ []
  forward Call.increment_outgoing_queue =
      Effect.queue (QueuePart.Call.increments QueuePart.Queue.outgoing) ∷ []
  forward Call.decrement_outgoing_queue =
      Effect.queue (QueuePart.Call.decrements QueuePart.Queue.outgoing) ∷ []
  forward (Call.set_outgoing_queue_depth n) =
      Effect.queue (QueuePart.Call.sets QueuePart.Queue.outgoing n) ∷ []
  forward Call.increment_serialization_queue =
      Effect.queue (QueuePart.Call.increments QueuePart.Queue.serialization) ∷ []
  forward Call.decrement_serialization_queue =
      Effect.queue (QueuePart.Call.decrements QueuePart.Queue.serialization) ∷ []
  forward (Call.set_serialization_queue_depth n) =
      Effect.queue (QueuePart.Call.sets QueuePart.Queue.serialization n) ∷ []
  forward Call.on_queue_overflow = Effect.queue QueuePart.Call.overflows ∷ []
  forward (Call.set_queue_backpressure active) =
      Effect.queue (QueuePart.Call.sets_backpressure active) ∷ []
  forward (Call.record_queue_wait_time x) = Effect.queue (QueuePart.Call.records_wait_time x) ∷ []
  forward (Call.record_queue_processing_time x) =
      Effect.queue (QueuePart.Call.records_processing_time x) ∷ []
  forward Call.on_feed_packet_drop = Effect.health HealthPart.Call.packet_drop ∷ []
  forward Call.on_feed_duplicate_packet = Effect.health HealthPart.Call.duplicate_packet ∷ []
  forward Call.on_feed_out_of_order_packet = Effect.health HealthPart.Call.out_of_order_packet ∷ []
  forward Call.on_feed_sequence_gap = Effect.health HealthPart.Call.sequence_gap ∷ []
  forward Call.on_feed_missing_tick = Effect.health HealthPart.Call.missing_tick ∷ []
  forward Call.on_feed_invalid_message = Effect.health HealthPart.Call.invalid_message ∷ []
  forward Call.on_feed_corrupted_packet = Effect.health HealthPart.Call.corrupted_packet ∷ []
  forward Call.on_feed_parse_failure = Effect.health HealthPart.Call.parse_failure ∷ []
  forward (Call.mark_feed_stale active) = Effect.health (HealthPart.Call.mark_stale active) ∷ []
  forward (Call.on_session_client_connected e) =
      Effect.session (SessionPart.Call.client_connected e) ∷ []
  forward (Call.on_session_client_disconnected e) =
      Effect.session (SessionPart.Call.client_disconnected e) ∷ []
  forward (Call.on_session_authentication_failure e) =
      Effect.session (SessionPart.Call.authentication_failure e) ∷ []
  forward (Call.on_session_reconnect e) = Effect.session (SessionPart.Call.reconnect e) ∷ []
  forward Call.on_network_tcp_reconnect = Effect.network NetworkPart.Call.tcp_reconnect ∷ []
  forward Call.on_network_socket_error = Effect.network NetworkPart.Call.socket_error ∷ []
  forward Call.on_network_read_error = Effect.network NetworkPart.Call.read_error ∷ []
  forward Call.on_network_write_error = Effect.network NetworkPart.Call.write_error ∷ []
  forward Call.on_network_tls_handshake_failure =
      Effect.network NetworkPart.Call.tls_handshake_failure ∷ []
  forward (Call.on_network_bytes_transmitted n) = Effect.network (NetworkPart.Call.transmits n) ∷ []
  forward (Call.on_network_bytes_received n) = Effect.network (NetworkPart.Call.receives n) ∷ []
  forward (Call.update_network_socket_rtt x) = Effect.network (NetworkPart.Call.socket_rtt x) ∷ []
  forward (Call.update_network_bandwidth x) =
      Effect.network (NetworkPart.Call.network_bandwidth x) ∷ []
  forward Call.on_network_connection_failure =
      Effect.network NetworkPart.Call.connection_failure ∷ []
  forward Call.on_database_successful_write =
      Effect.database DatabasePart.Call.successful_write ∷ []
  forward Call.on_database_failed_write = Effect.database DatabasePart.Call.failed_write ∷ []
  forward (Call.record_database_insert_latency x) =
      Effect.database (DatabasePart.Call.insert_latency x) ∷ []
  forward (Call.record_database_query_latency x) =
      Effect.database (DatabasePart.Call.query_latency x) ∷ []
  forward (Call.set_database_active_connections n) =
      Effect.database (DatabasePart.Call.active_connections n) ∷ []
  forward Call.on_database_connection_failure =
      Effect.database DatabasePart.Call.connection_failure ∷ []
  forward Call.on_database_transaction = Effect.database DatabasePart.Call.transaction ∷ []
  forward (Call.set_database_writes_per_sec x) =
      Effect.database (DatabasePart.Call.writes_per_sec x) ∷ []
  forward (Call.set_database_reads_per_sec x) =
      Effect.database (DatabasePart.Call.reads_per_sec x) ∷ []
  forward (Call.set_database_queue_waiting n) =
      Effect.database (DatabasePart.Call.queue_waiting n) ∷ []
  forward Call.on_tick = Effect.throughput ThroughputPart.Call.tick ∷ []
  forward Call.on_trade = Effect.throughput ThroughputPart.Call.trade ∷ []
  forward Call.on_orderbook_update = Effect.throughput ThroughputPart.Call.orderbook_update ∷ []
  forward Call.on_subscription = Effect.throughput ThroughputPart.Call.subscription ∷ []
  forward Call.on_broadcast = Effect.throughput ThroughputPart.Call.broadcast ∷ []
  forward Call.on_database_write = Effect.throughput ThroughputPart.Call.database_write ∷ []
  forward Call.on_database_read = Effect.throughput ThroughputPart.Call.database_read ∷ []
  forward (Call.update_cpu_usage a readings) = Effect.system_update a readings ∷ []
  forward (Call.reset now) = Effect.reset_all now ∷ []
