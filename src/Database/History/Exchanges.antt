-- ===== src/Database/History/Exchanges.antt =====
-- sadapter.h and sadapter.cpp: the rows of the table exchange_metrics_history.
use datafeed_server.Prelude.{ℕ, Bool, String, List, [], ◌∷◌, Option, some}
use datafeed_server.Prelude.Int.{ℤ}
use datafeed_server.Database.Timestamps.{timestamp_to_string}
use datafeed_server.Database.Values.{
  Value, Row, append_double, append_int64, read_double, read_int64, int64_in, text_in, bool_in,
  timestamp_in, ◌>>=◌,
}

pub record ExchangeMetricsEntry (D : Type 0) : Type 0 where
  pub id : ℤ
  pub instance_id : String
  pub exchange_name : String
  pub snapshot_time : ℕ
  pub connected : Bool
  pub uptime_seconds : Option D
  pub reconnect_count : Option ℤ
  pub heartbeat_failures : Option ℤ
  pub websocket_disconnects : Option ℤ
  pub messages_received : Option ℤ
  pub messages_dropped : Option ℤ
  pub parse_errors : Option ℤ
  pub feed_lag_ms : Option D
  pub exchange_latency_ms : Option D
  pub stale : Bool

unfoldable pub exchange_metrics_entry_values :
    {D : Type 0} → ExchangeMetricsEntry D → List (Value D)
unfolding append_double append_int64
exchange_metrics_entry_values e =
    Value.text e.instance_id
    ∷ Value.text e.exchange_name
    ∷ Value.timestamp (timestamp_to_string e.snapshot_time)
    ∷ Value.bool e.connected
    ∷ append_double e.uptime_seconds
    ∷ append_int64 e.reconnect_count
    ∷ append_int64 e.heartbeat_failures
    ∷ append_int64 e.websocket_disconnects
    ∷ append_int64 e.messages_received
    ∷ append_int64 e.messages_dropped
    ∷ append_int64 e.parse_errors
    ∷ append_double e.feed_lag_ms
    ∷ append_double e.exchange_latency_ms
    ∷ Value.bool e.stale
    ∷ []

unfoldable pub read_exchange_metrics_entry : {D : Type 0} → Row D → Option (ExchangeMetricsEntry D)
unfolding read_double read_int64 int64_in text_in bool_in timestamp_in
read_exchange_metrics_entry row = do
  id ← int64_in row "id"
  instance_id ← text_in row "instance_id"
  exchange_name ← text_in row "exchange_name"
  snapshot_time ← timestamp_in row "snapshot_time"
  connected ← bool_in row "connected"
  stale ← bool_in row "stale"
  some (record {
    id = id;
    instance_id = instance_id;
    exchange_name = exchange_name;
    snapshot_time = snapshot_time;
    connected = connected;
    uptime_seconds = read_double row "uptime_seconds";
    reconnect_count = read_int64 row "reconnect_count";
    heartbeat_failures = read_int64 row "heartbeat_failures";
    websocket_disconnects = read_int64 row "websocket_disconnects";
    messages_received = read_int64 row "messages_received";
    messages_dropped = read_int64 row "messages_dropped";
    parse_errors = read_int64 row "parse_errors";
    feed_lag_ms = read_double row "feed_lag_ms";
    exchange_latency_ms = read_double row "exchange_latency_ms";
    stale = stale;
  })
