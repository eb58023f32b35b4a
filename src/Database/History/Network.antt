-- ===== src/Database/History/Network.antt =====
-- sadapter.h and sadapter.cpp: the rows of the table network_metrics_history.
use datafeed_server.Prelude.{ℕ, String, List, [], ◌∷◌, Option, some}
use datafeed_server.Prelude.Int.{ℤ}
use datafeed_server.Database.Timestamps.{timestamp_to_string}
use datafeed_server.Database.Values.{
  Value, Row, append_double, append_int64, read_double, read_int64, int64_in, text_in, bool_in,
  timestamp_in, ◌>>=◌,
}

pub record NetworkMetricsEntry (D : Type 0) : Type 0 where
  pub id : ℤ
  pub instance_id : String
  pub measured_at : ℕ
  pub tcp_reconnects : Option ℤ
  pub socket_errors : Option ℤ
  pub read_errors : Option ℤ
  pub write_errors : Option ℤ
  pub tls_handshake_failures : Option ℤ
  pub bytes_transmitted : Option ℤ
  pub bytes_received : Option ℤ
  pub socket_rtt_ms : Option D
  pub bandwidth_bps : Option D
  pub connection_failures : Option ℤ

unfoldable pub network_metrics_entry_values : {D : Type 0} → NetworkMetricsEntry D → List (Value D)
unfolding append_double append_int64
network_metrics_entry_values e =
    Value.text e.instance_id
    ∷ Value.timestamp (timestamp_to_string e.measured_at)
    ∷ append_int64 e.tcp_reconnects
    ∷ append_int64 e.socket_errors
    ∷ append_int64 e.read_errors
    ∷ append_int64 e.write_errors
    ∷ append_int64 e.tls_handshake_failures
    ∷ append_int64 e.bytes_transmitted
    ∷ append_int64 e.bytes_received
    ∷ append_double e.socket_rtt_ms
    ∷ append_double e.bandwidth_bps
    ∷ append_int64 e.connection_failures
    ∷ []

unfoldable pub read_network_metrics_entry : {D : Type 0} → Row D → Option (NetworkMetricsEntry D)
unfolding read_double read_int64 int64_in text_in bool_in timestamp_in
read_network_metrics_entry row = do
  id ← int64_in row "id"
  instance_id ← text_in row "instance_id"
  measured_at ← timestamp_in row "measured_at"
  some (record {
    id = id;
    instance_id = instance_id;
    measured_at = measured_at;
    tcp_reconnects = read_int64 row "tcp_reconnects";
    socket_errors = read_int64 row "socket_errors";
    read_errors = read_int64 row "read_errors";
    write_errors = read_int64 row "write_errors";
    tls_handshake_failures = read_int64 row "tls_handshake_failures";
    bytes_transmitted = read_int64 row "bytes_transmitted";
    bytes_received = read_int64 row "bytes_received";
    socket_rtt_ms = read_double row "socket_rtt_ms";
    bandwidth_bps = read_double row "bandwidth_bps";
    connection_failures = read_int64 row "connection_failures";
  })
