-- ===== src/Database/ReadBack/Weekly.antt =====
-- sadapter.cpp: the rows of the table weekly_metrics_summary, read back.
use datafeed_server.Prelude.{some, ◌≡◌, string_key, lookup}
use datafeed_server.Prelude.Int.{ℤ}
use datafeed_server.Database.Values.{metric_values}
use datafeed_server.Database.Metrics.{Metrics, no_metrics}
use datafeed_server.Database.Statements.{insert_weekly_summary}
use datafeed_server.Database.Summaries.{WeeklySummary, weekly_summary_values, read_weekly_summary}
use datafeed_server.Database.ReadBack.Times.{misread, string_to_timestamp-printed}
use datafeed_server.Database.ReadBack.Stored.{int64-back, string-back, double-back, stored}

module _ {D : Type 0} where
  -- the metrics that `get_weekly_summaries_by_condition` reads
  unfoldable pub metrics_read : Metrics D → Metrics D
  unfolding no_metrics
  metrics_read m = record no_metrics {
    p50_latency_ms = m.p50_latency_ms;
    p95_latency_ms = m.p95_latency_ms;
    p99_latency_ms = m.p99_latency_ms;
    avg_latency_ms = m.avg_latency_ms;
    cpu_usage = m.cpu_usage;
    memory_usage = m.memory_usage;
    thread_count = m.thread_count;
    uptime_seconds = m.uptime_seconds;
    exchange_p50_ms = m.exchange_p50_ms;
    exchange_p95_ms = m.exchange_p95_ms;
    exchange_p99_ms = m.exchange_p99_ms;
    parsing_p50_ms = m.parsing_p50_ms;
    parsing_p95_ms = m.parsing_p95_ms;
    parsing_p99_ms = m.parsing_p99_ms;
    normalization_p50_ms = m.normalization_p50_ms;
    normalization_p95_ms = m.normalization_p95_ms;
    normalization_p99_ms = m.normalization_p99_ms;
    processing_p50_ms = m.processing_p50_ms;
    processing_p95_ms = m.processing_p95_ms;
    processing_p99_ms = m.processing_p99_ms;
    broadcast_p50_ms = m.broadcast_p50_ms;
    broadcast_p95_ms = m.broadcast_p95_ms;
    broadcast_p99_ms = m.broadcast_p99_ms;
    serialization_p50_ms = m.serialization_p50_ms;
    serialization_p95_ms = m.serialization_p95_ms;
    serialization_p99_ms = m.serialization_p99_ms;
    socket_send_p50_ms = m.socket_send_p50_ms;
    socket_send_p95_ms = m.socket_send_p95_ms;
    socket_send_p99_ms = m.socket_send_p99_ms;
    latency_stats_jsonb = m.latency_stats_jsonb;
    messages_per_sec = m.messages_per_sec;
    ticks_per_sec = m.ticks_per_sec;
    trades_per_sec = m.trades_per_sec;
  }

  pub weekly_summary-back :
      (id : ℤ) (s : WeeklySummary D)
      → read_weekly_summary (stored id insert_weekly_summary.columns (weekly_summary_values s))
        ≡ some (record s {
          id = id;
          week_start = misread s.week_start;
          metrics = metrics_read s.metrics;
        })
  unfolding read_weekly_summary weekly_summary_values insert_weekly_summary stored lookup
      metrics_read metric_values no_metrics
  weekly_summary-back id s = rw (string_to_timestamp-printed s.week_start) (λ i. some (record s {
    id = id;
    week_start = misread s.week_start;
    metrics = record no_metrics {
      p50_latency_ms = double-back s.metrics.p50_latency_ms i;
      p95_latency_ms = double-back s.metrics.p95_latency_ms i;
      p99_latency_ms = double-back s.metrics.p99_latency_ms i;
      avg_latency_ms = double-back s.metrics.avg_latency_ms i;
      cpu_usage = double-back s.metrics.cpu_usage i;
      memory_usage = int64-back D s.metrics.memory_usage i;
      thread_count = int64-back D s.metrics.thread_count i;
      uptime_seconds = int64-back D s.metrics.uptime_seconds i;
      exchange_p50_ms = double-back s.metrics.exchange_p50_ms i;
      exchange_p95_ms = double-back s.metrics.exchange_p95_ms i;
      exchange_p99_ms = double-back s.metrics.exchange_p99_ms i;
      parsing_p50_ms = double-back s.metrics.parsing_p50_ms i;
      parsing_p95_ms = double-back s.metrics.parsing_p95_ms i;
      parsing_p99_ms = double-back s.metrics.parsing_p99_ms i;
      normalization_p50_ms = double-back s.metrics.normalization_p50_ms i;
      normalization_p95_ms = double-back s.metrics.normalization_p95_ms i;
      normalization_p99_ms = double-back s.metrics.normalization_p99_ms i;
      processing_p50_ms = double-back s.metrics.processing_p50_ms i;
      processing_p95_ms = double-back s.metrics.processing_p95_ms i;
      processing_p99_ms = double-back s.metrics.processing_p99_ms i;
      broadcast_p50_ms = double-back s.metrics.broadcast_p50_ms i;
      broadcast_p95_ms = double-back s.metrics.broadcast_p95_ms i;
      broadcast_p99_ms = double-back s.metrics.broadcast_p99_ms i;
      serialization_p50_ms = double-back s.metrics.serialization_p50_ms i;
      serialization_p95_ms = double-back s.metrics.serialization_p95_ms i;
      serialization_p99_ms = double-back s.metrics.serialization_p99_ms i;
      socket_send_p50_ms = double-back s.metrics.socket_send_p50_ms i;
      socket_send_p95_ms = double-back s.metrics.socket_send_p95_ms i;
      socket_send_p99_ms = double-back s.metrics.socket_send_p99_ms i;
      latency_stats_jsonb = string-back D s.metrics.latency_stats_jsonb i;
      messages_per_sec = double-back s.metrics.messages_per_sec i;
      ticks_per_sec = double-back s.metrics.ticks_per_sec i;
      trades_per_sec = double-back s.metrics.trades_per_sec i;
    };
  }))
