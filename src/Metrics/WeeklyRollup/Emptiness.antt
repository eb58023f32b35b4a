-- ===== src/Metrics/WeeklyRollup/Emptiness.antt =====
-- What metrics/weekly_rollup.cpp stores of a week.
use datafeed_server.Prelude.{
  ℕ, String, List, [], ◌∷◌, Option, none, some, ◌≡◌, refl, ap, ◌∙◌, inl, inr, Bool-cases,
  Option-cases, arith,
}
use datafeed_server.Prelude.Int.{ℤ, pos}
use datafeed_server.Metrics.LatencyTracker.{DoubleArithmetic}
use datafeed_server.Database.Values.{Row}
use datafeed_server.Database.Metrics.{Metrics, no_metrics}
use datafeed_server.Database.Summaries.{DbSnapshot, read_snapshot, read_rows}
use datafeed_server.Database.Adapter.{
  Postgres, Condition, SAdapter, get_feed_metrics_snapshots_by_condition, rows_of,
}
use datafeed_server.Metrics.WeeklyRollup.{
  sum_doubles, avg_double, sum_int64s, avg_int64, latest_from, latest_int64, weekly_metrics,
  summary_of,
}

-- all without a metric
AreBlank : {D : Type 0} → List (DbSnapshot D) → Type 0
AreBlank [] = Unit {0}
AreBlank (s ∷ ss) = (s.metrics ≡ no_metrics) × AreBlank ss

module _ {D : Type 0} where
  read_snapshot-blank :
      (row : Row D) (s : DbSnapshot D) → read_snapshot row ≡ some s → s.metrics ≡ no_metrics
  unfolding read_snapshot
  read_snapshot-blank row s e = ground arith

  read_rows-AreBlank : (rows : List (Row D)) → AreBlank (read_rows read_snapshot rows)
  unfolding AreBlank read_rows
  read_rows-AreBlank [] = tt
  read_rows-AreBlank (row ∷ rows) = elim (Option-cases (read_snapshot row)) [
    | inl e ↦ rw (e, read_rows) tt
    | inr (s, e) ↦ rw (e, read_rows) (read_snapshot-blank row s e, read_rows-AreBlank rows)
  ]

module _ (arithmetic : DoubleArithmetic) where
  open arithmetic use {Double, zero_double}

  sum_doubles-blank :
      (f : Metrics Double → Option Double) (ss : List (DbSnapshot Double)) (sum : Double)
      (count : ℕ)
      → f no_metrics ≡ none
      → AreBlank ss
      → sum_doubles arithmetic f ss sum count ≡ (sum, count)
  unfolding sum_doubles AreBlank
  sum_doubles-blank f [] sum count h b = refl
  sum_doubles-blank f (s ∷ ss) sum count h b =
      let nothing : f s.metrics ≡ none = ap f b.0 ∙ h in
      rw (nothing, sum_doubles) (sum_doubles-blank f ss sum count h b.1)

  avg_double-blank :
      (f : Metrics Double → Option Double) (ss : List (DbSnapshot Double))
      → f no_metrics ≡ none
      → AreBlank ss
      → avg_double arithmetic f ss ≡ none
  unfolding avg_double
  avg_double-blank f ss h b = rw (sum_doubles-blank f ss zero_double 0 h b) refl

  sum_int64s-blank :
      (f : Metrics Double → Option ℤ) (ss : List (DbSnapshot Double)) (sum : ℤ) (count : ℕ)
      → f no_metrics ≡ none
      → AreBlank ss
      → sum_int64s arithmetic f ss sum count ≡ (sum, count)
  unfolding sum_int64s AreBlank
  sum_int64s-blank f [] sum count h b = refl
  sum_int64s-blank f (s ∷ ss) sum count h b =
      let nothing : f s.metrics ≡ none = ap f b.0 ∙ h in
      rw (nothing, sum_int64s) (sum_int64s-blank f ss sum count h b.1)

  avg_int64-blank :
      (f : Metrics Double → Option ℤ) (ss : List (DbSnapshot Double))
      → f no_metrics ≡ none
      → AreBlank ss
      → avg_int64 arithmetic f ss ≡ none
  unfolding avg_int64
  avg_int64-blank f ss h b = rw (sum_int64s-blank f ss (pos 0) 0 h b) refl

  latest_from-blank :
      (f : Metrics Double → Option ℤ) (ss : List (DbSnapshot Double))
      → f no_metrics ≡ none
      → AreBlank ss
      → latest_from arithmetic f ss none ≡ none
  unfolding latest_from AreBlank
  latest_from-blank f [] h b = refl
  latest_from-blank f (s ∷ ss) h b =
      let nothing : f s.metrics ≡ none = ap f b.0 ∙ h in rw nothing (latest_from-blank f ss h b.1)

  weekly_metrics-blank :
      (ss : List (DbSnapshot Double)) → AreBlank ss → weekly_metrics arithmetic ss ≡ no_metrics
  unfolding weekly_metrics latest_int64 no_metrics
  weekly_metrics-blank ss b = λ i. record no_metrics {
    p50_latency_ms = avg_double-blank (λ m. m.p50_latency_ms) ss refl b i;
    p95_latency_ms = avg_double-blank (λ m. m.p95_latency_ms) ss refl b i;
    p99_latency_ms = avg_double-blank (λ m. m.p99_latency_ms) ss refl b i;
    avg_latency_ms = avg_double-blank (λ m. m.avg_latency_ms) ss refl b i;
    cpu_usage = avg_double-blank (λ m. m.cpu_usage) ss refl b i;
    memory_usage = avg_int64-blank (λ m. m.memory_usage) ss refl b i;
    thread_count = avg_int64-blank (λ m. m.thread_count) ss refl b i;
    uptime_seconds = avg_int64-blank (λ m. m.uptime_seconds) ss refl b i;
    exchange_p50_ms = avg_double-blank (λ m. m.exchange_p50_ms) ss refl b i;
    exchange_p95_ms = avg_double-blank (λ m. m.exchange_p95_ms) ss refl b i;
    exchange_p99_ms = avg_double-blank (λ m. m.exchange_p99_ms) ss refl b i;
    parsing_p50_ms = avg_double-blank (λ m. m.parsing_p50_ms) ss refl b i;
    parsing_p95_ms = avg_double-blank (λ m. m.parsing_p95_ms) ss refl b i;
    parsing_p99_ms = avg_double-blank (λ m. m.parsing_p99_ms) ss refl b i;
    messages_per_sec = avg_double-blank (λ m. m.messages_per_sec) ss refl b i;
    packets_per_sec = avg_double-blank (λ m. m.packets_per_sec) ss refl b i;
    ticks_per_sec = avg_double-blank (λ m. m.ticks_per_sec) ss refl b i;
    trades_per_sec = avg_double-blank (λ m. m.trades_per_sec) ss refl b i;
    total_messages = latest_from-blank (λ m. m.total_messages) ss refl b i;
    total_packets = latest_from-blank (λ m. m.total_packets) ss refl b i;
    total_bytes = latest_from-blank (λ m. m.total_bytes) ss refl b i;
    total_ticks = latest_from-blank (λ m. m.total_ticks) ss refl b i;
    incoming_queue_depth = avg_int64-blank (λ m. m.incoming_queue_depth) ss refl b i;
    outgoing_queue_depth = avg_int64-blank (λ m. m.outgoing_queue_depth) ss refl b i;
    packet_drops = latest_from-blank (λ m. m.packet_drops) ss refl b i;
    duplicate_packets = latest_from-blank (λ m. m.duplicate_packets) ss refl b i;
    out_of_order_packets = latest_from-blank (λ m. m.out_of_order_packets) ss refl b i;
    parse_failures = latest_from-blank (λ m. m.parse_failures) ss refl b i;
    active_clients = avg_int64-blank (λ m. m.active_clients) ss refl b i;
    active_sessions = avg_int64-blank (λ m. m.active_sessions) ss refl b i;
    active_subscriptions = avg_int64-blank (λ m. m.active_subscriptions) ss refl b i;
    tcp_reconnects = latest_from-blank (λ m. m.tcp_reconnects) ss refl b i;
    socket_errors = latest_from-blank (λ m. m.socket_errors) ss refl b i;
    socket_rtt_ms = avg_double-blank (λ m. m.socket_rtt_ms) ss refl b i;
    network_bandwidth_bps = avg_double-blank (λ m. m.network_bandwidth_bps) ss refl b i;
    db_successful_writes = latest_from-blank (λ m. m.db_successful_writes) ss refl b i;
    db_failed_writes = latest_from-blank (λ m. m.db_failed_writes) ss refl b i;
    db_insert_latency_ms = avg_double-blank (λ m. m.db_insert_latency_ms) ss refl b i;
    db_query_latency_ms = avg_double-blank (λ m. m.db_query_latency_ms) ss refl b i;
    peak_rss = avg_int64-blank (λ m. m.peak_rss) ss refl b i;
    virtual_memory = avg_int64-blank (λ m. m.virtual_memory) ss refl b i;
    heap_usage = avg_int64-blank (λ m. m.heap_usage) ss refl b i;
    memory_growth_rate = avg_double-blank (λ m. m.memory_growth_rate) ss refl b i;
  }

  AreBlank-get :
      (postgres : Postgres Double) (condition : Condition) (a : SAdapter postgres)
      → AreBlank (get_feed_metrics_snapshots_by_condition postgres condition a)
  unfolding get_feed_metrics_snapshots_by_condition
  AreBlank-get postgres condition a = elim (Bool-cases a.is_connected) [
    | inl e ↦ rw e (
        read_rows-AreBlank
          (rows_of postgres (postgres.select "feed_metrics_snapshots" condition a.tables)))
    | inr e ↦ rw e (unfold AreBlank in tt)
  ]

  -- Whatever the database holds, the summary of a week that is made of it has no metric at all: the query of the
  -- week's snapshots reads their identities and times only.
  pub summary_of-blank :
      (postgres : Postgres Double) (instance_id : String) (week_end : ℕ) (condition : Condition)
      (a : SAdapter postgres)
      → (summary_of arithmetic instance_id week_end
          (get_feed_metrics_snapshots_by_condition postgres condition a)).metrics
        ≡ no_metrics
  unfolding summary_of
  summary_of-blank postgres instance_id week_end condition a =
      weekly_metrics-blank (get_feed_metrics_snapshots_by_condition postgres condition a)
        (AreBlank-get postgres condition a)
