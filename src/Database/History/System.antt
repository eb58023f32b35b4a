-- ===== src/Database/History/System.antt =====
-- sadapter.h and sadapter.cpp: the rows of the table system_metrics_history.
use datafeed_server.Prelude.{ℕ, String, List, [], ◌∷◌, Option, some}
use datafeed_server.Prelude.Int.{ℤ}
use datafeed_server.Database.Timestamps.{timestamp_to_string}
use datafeed_server.Database.Values.{
  Value, Row, append_double, append_int64, read_double, read_int64, int64_in, text_in, bool_in,
  timestamp_in, ◌>>=◌,
}

pub record SystemMetricsEntry (D : Type 0) : Type 0 where
  pub id : ℤ
  pub instance_id : String
  pub measured_at : ℕ
  pub cpu_usage_percent : Option D
  pub memory_rss : Option ℤ
  pub peak_rss : Option ℤ
  pub virtual_memory : Option ℤ
  pub heap_usage : Option ℤ
  pub memory_growth_rate : Option D
  pub thread_count : Option ℤ
  pub uptime_seconds : Option D

unfoldable pub system_metrics_entry_values : {D : Type 0} → SystemMetricsEntry D → List (Value D)
unfolding append_double append_int64
system_metrics_entry_values e =
    Value.text e.instance_id
    ∷ Value.timestamp (timestamp_to_string e.measured_at)
    ∷ append_double e.cpu_usage_percent
    ∷ append_int64 e.memory_rss
    ∷ append_int64 e.peak_rss
    ∷ append_int64 e.virtual_memory
    ∷ append_int64 e.heap_usage
    ∷ append_double e.memory_growth_rate
    ∷ append_int64 e.thread_count
    ∷ append_double e.uptime_seconds
    ∷ []

unfoldable pub read_system_metrics_entry : {D : Type 0} → Row D → Option (SystemMetricsEntry D)
unfolding read_double read_int64 int64_in text_in bool_in timestamp_in
read_system_metrics_entry row = do
  id ← int64_in row "id"
  instance_id ← text_in row "instance_id"
  measured_at ← timestamp_in row "measured_at"
  some (record {
    id = id;
    instance_id = instance_id;
    measured_at = measured_at;
    cpu_usage_percent = read_double row "cpu_usage_percent";
    memory_rss = read_int64 row "memory_rss";
    peak_rss = read_int64 row "peak_rss";
    virtual_memory = read_int64 row "virtual_memory";
    heap_usage = read_int64 row "heap_usage";
    memory_growth_rate = read_double row "memory_growth_rate";
    thread_count = read_int64 row "thread_count";
    uptime_seconds = read_double row "uptime_seconds";
  })
