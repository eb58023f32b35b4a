-- ===== src/Database/History/Database.antt =====
-- sadapter.h and sadapter.cpp: the rows of the table database_metrics_history.
use datafeed_server.Prelude.{ℕ, String, List, [], ◌∷◌, Option, some}
use datafeed_server.Prelude.Int.{ℤ}
use datafeed_server.Database.Timestamps.{timestamp_to_string}
use datafeed_server.Database.Values.{
  Value, Row, append_double, append_int64, read_double, read_int64, int64_in, text_in, bool_in,
  timestamp_in, ◌>>=◌,
}

pub record DatabaseMetricsEntry (D : Type 0) : Type 0 where
  pub id : ℤ
  pub instance_id : String
  pub measured_at : ℕ
  pub successful_writes : Option ℤ
  pub failed_writes : Option ℤ
  pub insert_latency_ms : Option D
  pub query_latency_ms : Option D
  pub active_connections : Option ℤ
  pub connection_failures : Option ℤ
  pub transaction_count : Option ℤ
  pub writes_per_sec : Option D
  pub reads_per_sec : Option D
  pub queue_waiting : Option ℤ

unfoldable pub database_metrics_entry_values :
    {D : Type 0} → DatabaseMetricsEntry D → List (Value D)
unfolding append_double append_int64
database_metrics_entry_values e =
    Value.text e.instance_id
    ∷ Value.timestamp (timestamp_to_string e.measured_at)
    ∷ append_int64 e.successful_writes
    ∷ append_int64 e.failed_writes
    ∷ append_double e.insert_latency_ms
    ∷ append_double e.query_latency_ms
    ∷ append_int64 e.active_connections
    ∷ append_int64 e.connection_failures
    ∷ append_int64 e.transaction_count
    ∷ append_double e.writes_per_sec
    ∷ append_double e.reads_per_sec
    ∷ append_int64 e.queue_waiting
    ∷ []

unfoldable pub read_database_metrics_entry : {D : Type 0} → Row D → Option (DatabaseMetricsEntry D)
unfolding read_double read_int64 int64_in text_in bool_in timestamp_in
read_database_metrics_entry row = do
  id ← int64_in row "id"
  instance_id ← text_in row "instance_id"
  measured_at ← timestamp_in row "measured_at"
  some (record {
    id = id;
    instance_id = instance_id;
    measured_at = measured_at;
    successful_writes = read_int64 row "successful_writes";
    failed_writes = read_int64 row "failed_writes";
    insert_latency_ms = read_double row "insert_latency_ms";
    query_latency_ms = read_double row "query_latency_ms";
    active_connections = read_int64 row "active_connections";
    connection_failures = read_int64 row "connection_failures";
    transaction_count = read_int64 row "transaction_count";
    writes_per_sec = read_double row "writes_per_sec";
    reads_per_sec = read_double row "reads_per_sec";
    queue_waiting = read_int64 row "queue_waiting";
  })
