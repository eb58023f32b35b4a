-- ===== src/Database/Summaries.antt =====
-- sadapter.h and sadapter.cpp: the rows of the tables of snapshots and of weekly summaries, what
-- `create_feed_metrics_snapshot` and `create_weekly_metrics_summary` bind to the parameters of the INSERT, and
-- how `get_feed_metrics_snapshots_by_condition` and `get_weekly_summaries_by_condition` read a row. `none` is
-- an exception.
use datafeed_server.Prelude.{ℕ, String, List, [], ◌∷◌, Option, none, some}
use datafeed_server.Prelude.Int.{ℤ}
use datafeed_server.Database.Metrics.{Metrics, no_metrics}
use datafeed_server.Database.Timestamps.{timestamp_to_string}
use datafeed_server.Database.Values.{
  Value, Row, metric_values, read_double, read_int64, read_string, int64_in, text_in, timestamp_in,
  ◌>>=◌,
}

pub record DbSnapshot (D : Type 0) : Type 0 where
  pub id : ℤ
  pub instance_id : String
  pub measured_at : ℕ
  pub metrics : Metrics D

pub record WeeklySummary (D : Type 0) : Type 0 where
  pub id : ℤ
  pub instance_id : String
  pub week_start : ℕ
  pub sample_count : ℤ
  pub metrics : Metrics D

module _ {D : Type 0} where
  unfoldable pub snapshot_values : DbSnapshot D → List (Value D)
  unfolding metric_values
  snapshot_values s =
      Value.text s.instance_id
      ∷ Value.timestamp (timestamp_to_string s.measured_at)
      ∷ metric_values s.metrics

  unfoldable pub weekly_summary_values : WeeklySummary D → List (Value D)
  unfolding metric_values
  weekly_summary_values s =
      Value.text s.instance_id
      ∷ Value.timestamp (timestamp_to_string s.week_start)
      ∷ Value.int s.sample_count
      ∷ metric_values s.metrics

  -- the body of the loop: no metric is read
  unfoldable pub read_snapshot : Row D → Option (DbSnapshot D)
  unfolding int64_in text_in timestamp_in no_metrics
  read_snapshot row = do
    id ← int64_in row "id"
    instance_id ← text_in row "instance_id"
    measured_at ← timestamp_in row "measured_at"
    some (record {
      id = id;
      instance_id = instance_id;
      measured_at = measured_at;
      metrics = no_metrics;
    })

  unfoldable pub read_weekly_summary : Row D → Option (WeeklySummary D)
  unfolding int64_in text_in timestamp_in no_metrics read_double read_int64 read_string
  read_weekly_summary row = do
    id ← int64_in row "id"
    instance_id ← text_in row "instance_id"
    week_start ← timestamp_in row "week_start"
    sample_count ← int64_in row "sample_count"
    some (record {
      id = id;
      instance_id = instance_id;
      week_start = week_start;
      sample_count = sample_count;
      metrics = record no_metrics {
        p50_latency_ms = read_double row "p50_latency_ms";
        p95_latency_ms = read_double row "p95_latency_ms";
        p99_latency_ms = read_double row "p99_latency_ms";
        avg_latency_ms = read_double row "avg_latency_ms";
        cpu_usage = read_double row "cpu_usage";
        memory_usage = read_int64 row "memory_usage";
        thread_count = read_int64 row "thread_count";
        uptime_seconds = read_int64 row "uptime_seconds";
        exchange_p50_ms = read_double row "exchange_p50_ms";
        exchange_p95_ms = read_double row "exchange_p95_ms";
        exchange_p99_ms = read_double row "exchange_p99_ms";
        parsing_p50_ms = read_double row "parsing_p50_ms";
        parsing_p95_ms = read_double row "parsing_p95_ms";
        parsing_p99_ms = read_double row "parsing_p99_ms";
        normalization_p50_ms = read_double row "normalization_p50_ms";
        normalization_p95_ms = read_double row "normalization_p95_ms";
        normalization_p99_ms = read_double row "normalization_p99_ms";
        processing_p50_ms = read_double row "processing_p50_ms";
        processing_p95_ms = read_double row "processing_p95_ms";
        processing_p99_ms = read_double row "processing_p99_ms";
        broadcast_p50_ms = read_double row "broadcast_p50_ms";
        broadcast_p95_ms = read_double row "broadcast_p95_ms";
        broadcast_p99_ms = read_double row "broadcast_p99_ms";
        serialization_p50_ms = read_double row "serialization_p50_ms";
        serialization_p95_ms = read_double row "serialization_p95_ms";
        serialization_p99_ms = read_double row "serialization_p99_ms";
        socket_send_p50_ms = read_double row "socket_send_p50_ms";
        socket_send_p95_ms = read_double row "socket_send_p95_ms";
        socket_send_p99_ms = read_double row "socket_send_p99_ms";
        latency_stats_jsonb = read_string row "latency_stats_jsonb";
        messages_per_sec = read_double row "messages_per_sec";
        ticks_per_sec = read_double row "ticks_per_sec";
        trades_per_sec = read_double row "trades_per_sec";
      };
    })

  -- The loop over the rows of a result: an exception ends it, and what was read is returned.
  unfoldable pub read_rows : {A : Type 0} → (Row D → Option A) → List (Row D) → List A
  read_rows read [] = []
  read_rows read (row ∷ rows) = elim (read row) [ none ↦ [] | some a ↦ a ∷ read_rows read rows ]
