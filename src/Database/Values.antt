-- ===== src/Database/Values.antt =====
-- sadapter.cpp: what is bound to a statement's parameters (`append_opt` and its like), and a row of a result read by
-- column. A `double` is a value of a type `D`.
use datafeed_server.Prelude.{ℕ, Bool, String, List, [], ◌∷◌, Option, none, some, string_key, lookup}
use datafeed_server.Prelude.Int.{ℤ}
use datafeed_server.Database.Metrics.{Metrics}
use datafeed_server.Database.Timestamps.{TimestampText, string_to_timestamp}

pub data Value (D : Type 0) : Type 0 where
  null : Value D
  text : String → Value D
  real : D → Value D
  int : ℤ → Value D
  bool : Bool → Value D
  timestamp : TimestampText → Value D

abbrev pub Row : Type 0 → Type 0
Row D = List (String × Value D)

module _ {D : Type 0} where
  -- the overloads of `append_opt`
  unfoldable pub append_double : Option D → Value D
  append_double none = Value.null
  append_double (some x) = Value.real x

  unfoldable pub append_int64 : Option ℤ → Value D
  append_int64 none = Value.null
  append_int64 (some n) = Value.int n

  unfoldable pub append_string : Option String → Value D
  append_string none = Value.null
  append_string (some s) = Value.text s

  unfoldable pub append_bool : Option Bool → Value D
  append_bool none = Value.null
  append_bool (some b) = Value.bool b

  -- `row[column].is_null() ? std::nullopt : row[column].as<...>()`, on a column of that type
  unfoldable pub double_of : Option (Value D) → Option D
  double_of (some (Value.real x)) = some x
  double_of _ = none

  unfoldable pub int64_of : Option (Value D) → Option ℤ
  int64_of (some (Value.int n)) = some n
  int64_of _ = none

  unfoldable pub string_of : Option (Value D) → Option String
  string_of (some (Value.text s)) = some s
  string_of _ = none

  unfoldable pub read_double : Row D → String → Option D
  unfolding double_of lookup
  read_double row column = double_of (lookup column row)

  unfoldable pub read_int64 : Row D → String → Option ℤ
  unfolding int64_of lookup
  read_int64 row column = int64_of (lookup column row)

  unfoldable pub read_string : Row D → String → Option String
  unfolding string_of lookup
  read_string row column = string_of (lookup column row)

  -- the calls of `append_opt` in `create_feed_metrics_snapshot`, and in `create_weekly_metrics_summary`
  unfoldable pub metric_values : Metrics D → List (Value D)
  unfolding append_double append_int64 append_string append_bool
  metric_values m =
      append_double m.p50_latency_ms
      ∷ append_double m.p95_latency_ms
      ∷ append_double m.p99_latency_ms
      ∷ append_double m.avg_latency_ms
      ∷ append_double m.drop_rate
      ∷ append_double m.packet_loss_rate
      ∷ append_int64 m.msgs_sent
      ∷ append_int64 m.msgs_received
      ∷ append_int64 m.bytes_sent
      ∷ append_int64 m.bytes_received
      ∷ append_double m.cpu_usage
      ∷ append_int64 m.memory_usage
      ∷ append_int64 m.thread_count
      ∷ append_double m.event_loop_lag_ms
      ∷ append_int64 m.uptime_seconds
      ∷ append_double m.exchange_p50_ms
      ∷ append_double m.exchange_p95_ms
      ∷ append_double m.exchange_p99_ms
      ∷ append_double m.parsing_p50_ms
      ∷ append_double m.parsing_p95_ms
      ∷ append_double m.parsing_p99_ms
      ∷ append_double m.normalization_p50_ms
      ∷ append_double m.normalization_p95_ms
      ∷ append_double m.normalization_p99_ms
      ∷ append_double m.processing_p50_ms
      ∷ append_double m.processing_p95_ms
      ∷ append_double m.processing_p99_ms
      ∷ append_double m.broadcast_p50_ms
      ∷ append_double m.broadcast_p95_ms
      ∷ append_double m.broadcast_p99_ms
      ∷ append_double m.serialization_p50_ms
      ∷ append_double m.serialization_p95_ms
      ∷ append_double m.serialization_p99_ms
      ∷ append_double m.socket_send_p50_ms
      ∷ append_double m.socket_send_p95_ms
      ∷ append_double m.socket_send_p99_ms
      ∷ append_string m.latency_stats_jsonb
      ∷ append_double m.messages_per_sec
      ∷ append_double m.packets_per_sec
      ∷ append_double m.bytes_per_sec
      ∷ append_double m.ticks_per_sec
      ∷ append_double m.trades_per_sec
      ∷ append_double m.orderbook_updates_per_sec
      ∷ append_double m.broadcasts_per_sec
      ∷ append_double m.subscriptions_per_sec
      ∷ append_double m.database_writes_per_sec
      ∷ append_double m.database_reads_per_sec
      ∷ append_int64 m.total_messages
      ∷ append_int64 m.total_packets
      ∷ append_int64 m.total_bytes
      ∷ append_int64 m.total_ticks
      ∷ append_int64 m.total_trades
      ∷ append_int64 m.total_orderbook_updates
      ∷ append_int64 m.total_broadcasts
      ∷ append_int64 m.incoming_queue_depth
      ∷ append_int64 m.outgoing_queue_depth
      ∷ append_int64 m.serialization_queue_depth
      ∷ append_int64 m.max_incoming_queue_depth
      ∷ append_int64 m.max_outgoing_queue_depth
      ∷ append_int64 m.max_serialization_queue_depth
      ∷ append_int64 m.queue_overflow_count
      ∷ append_double m.queue_wait_time_ms
      ∷ append_double m.queue_processing_time_ms
      ∷ append_bool m.queue_backpressure
      ∷ append_int64 m.packet_drops
      ∷ append_int64 m.duplicate_packets
      ∷ append_int64 m.out_of_order_packets
      ∷ append_int64 m.sequence_gaps
      ∷ append_int64 m.missing_ticks
      ∷ append_int64 m.invalid_messages
      ∷ append_int64 m.corrupted_packets
      ∷ append_int64 m.parse_failures
      ∷ append_bool m.stale_feed
      ∷ append_int64 m.feed_health_score
      ∷ append_string m.feed_health_status
      ∷ append_int64 m.active_clients
      ∷ append_int64 m.active_sessions
      ∷ append_int64 m.active_subscriptions
      ∷ append_int64 m.total_connections
      ∷ append_int64 m.total_disconnections
      ∷ append_int64 m.reconnect_count
      ∷ append_int64 m.authentication_failures
      ∷ append_double m.avg_session_duration_ms
      ∷ append_double m.longest_session_duration_ms
      ∷ append_int64 m.tcp_reconnects
      ∷ append_int64 m.socket_errors
      ∷ append_int64 m.read_errors
      ∷ append_int64 m.write_errors
      ∷ append_int64 m.tls_handshake_failures
      ∷ append_int64 m.network_bytes_transmitted
      ∷ append_int64 m.network_bytes_received
      ∷ append_double m.socket_rtt_ms
      ∷ append_double m.network_bandwidth_bps
      ∷ append_int64 m.network_connection_failures
      ∷ append_int64 m.db_successful_writes
      ∷ append_int64 m.db_failed_writes
      ∷ append_double m.db_insert_latency_ms
      ∷ append_double m.db_query_latency_ms
      ∷ append_int64 m.db_active_connections
      ∷ append_int64 m.db_connection_failures
      ∷ append_int64 m.db_transaction_count
      ∷ append_double m.db_writes_per_sec
      ∷ append_double m.db_reads_per_sec
      ∷ append_int64 m.db_queue_waiting
      ∷ append_int64 m.peak_rss
      ∷ append_int64 m.virtual_memory
      ∷ append_int64 m.heap_usage
      ∷ append_double m.memory_growth_rate
      ∷ append_int64 m.total_subscriptions
      ∷ append_int64 m.total_database_writes
      ∷ append_int64 m.total_database_reads
      ∷ []

  -- an INSERT's row
  unfoldable pub row_of : List String → List (Value D) → Row D
  row_of (c ∷ cs) (v ∷ vs) = (c, v) ∷ row_of cs vs
  row_of _ _ = []

  -- `row[column].as<...>()`, which throws for a null
  unfoldable pub int64_in : Row D → String → Option ℤ
  unfolding lookup int64_of
  int64_in row column = int64_of (lookup column row)

  unfoldable pub text_in : Row D → String → Option String
  unfolding lookup string_of
  text_in row column = string_of (lookup column row)

  unfoldable pub bool_of : Option (Value D) → Option Bool
  bool_of (some (Value.bool b)) = some b
  bool_of _ = none

  unfoldable pub bool_in : Row D → String → Option Bool
  unfolding lookup bool_of
  bool_in row column = bool_of (lookup column row)

  unfoldable pub timestamp_of : Option (Value D) → Option ℕ
  timestamp_of (some (Value.timestamp t)) = string_to_timestamp t
  timestamp_of _ = none

  unfoldable pub timestamp_in : Row D → String → Option ℕ
  unfolding lookup timestamp_of
  timestamp_in row column = timestamp_of (lookup column row)

-- what follows an exception is not done
infixl 5 ◌>>=◌
abbrev pub ◌>>=◌ : {A B : Type 0} → Option A → (A → Option B) → Option B
none >>= f = none
some a >>= f = f a
