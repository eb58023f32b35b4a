-- ===== src/Metrics/WeeklyRollup.antt =====
-- metrics/weekly_rollup.h and metrics/weekly_rollup.cpp, class WeeklyRollup. A time is what
-- `system_clock::now()` gives, in seconds since 1970; the first Monday of that count is its fifth day. A round of
-- the worker is `check`: the other thread only ends the rounds.
pub mod Weeks
pub mod Emptiness
mod Examples
use datafeed_server.Prelude.{
  ℕ, suc, ◌+◌, ◌-◌, ◌*◌, ◌/◌, ◌%◌, Bool, true, false, String, List, [], ◌∷◌, Option, none, some,
  if◌then◌else◌, ltb, eqb, length, not,
}
use datafeed_server.Prelude.Int.{ℤ, pos, ◌+ℤ◌, quotient_by}
use datafeed_server.Metrics.LatencyTracker.{DoubleArithmetic}
use datafeed_server.Database.Metrics.{Metrics, no_metrics}
use datafeed_server.Database.Summaries.{DbSnapshot, WeeklySummary}
use datafeed_server.Database.Adapter.{
  Postgres, Condition, SAdapter, get_feed_metrics_snapshots_by_condition,
  create_weekly_metrics_summary, delete_old_snapshots,
}

-- Monday 00:00 UTC of a time's week: `tm_wday` is 0 for Sunday, and the first day was a Thursday.
unfoldable pub week_start : ℕ → ℕ
week_start now = let day = now / 86400 in let wday = (day + 4) % 7 in (day - (wday + 6) % 7) * 86400

pub record WeeklyRollup : Type 0 where
  pub last_week_start : ℕ
  pub has_last_week : Bool

unfoldable pub init : WeeklyRollup
init = record { last_week_start = 0; has_last_week = false }

unfoldable pub is_new_week : ℕ → WeeklyRollup → Bool × WeeklyRollup
unfolding week_start
is_new_week now w =
    if not w.has_last_week
    then (false, record { last_week_start = week_start now; has_last_week = true })
    else if ltb w.last_week_start (week_start now)
    then (true, record w { last_week_start = week_start now })
    else (false, w)

module _ (arithmetic : DoubleArithmetic) where
  open arithmetic use {Double, zero_double, plus, over}

  -- the loops of the three helpers, with the sum and the count
  unfoldable pub sum_doubles :
      (Metrics Double → Option Double) → List (DbSnapshot Double) → Double → ℕ → Double × ℕ
  sum_doubles f [] sum count = (sum, count)
  sum_doubles f (s ∷ ss) sum count = elim (f s.metrics) [
    | none ↦ sum_doubles f ss sum count
    | some x ↦ sum_doubles f ss (plus sum x) (suc count)
  ]

  unfoldable pub avg_double :
      (Metrics Double → Option Double) → List (DbSnapshot Double) → Option Double
  unfolding sum_doubles
  avg_double f snapshots =
      let (sum, count) = sum_doubles f snapshots zero_double 0 in
      if eqb count 0 then none else some (over sum count)

  unfoldable pub sum_int64s : (Metrics Double → Option ℤ) → List (DbSnapshot Double) → ℤ → ℕ → ℤ × ℕ
  sum_int64s f [] sum count = (sum, count)
  sum_int64s f (s ∷ ss) sum count = elim (f s.metrics) [
    | none ↦ sum_int64s f ss sum count
    | some n ↦ sum_int64s f ss (sum +ℤ n) (suc count)
  ]

  unfoldable pub avg_int64 : (Metrics Double → Option ℤ) → List (DbSnapshot Double) → Option ℤ
  unfolding sum_int64s
  avg_int64 f snapshots =
      let (sum, count) = sum_int64s f snapshots (pos 0) 0 in
      if eqb count 0 then none else some (quotient_by sum count)

  unfoldable pub latest_from :
      (Metrics Double → Option ℤ) → List (DbSnapshot Double) → Option ℤ → Option ℤ
  latest_from f [] val = val
  latest_from f (s ∷ ss) val =
      latest_from f ss (elim (f s.metrics) [ none ↦ val | some n ↦ some n ])

  unfoldable pub latest_int64 : (Metrics Double → Option ℤ) → List (DbSnapshot Double) → Option ℤ
  unfolding latest_from
  latest_int64 f snapshots = latest_from f snapshots none

  unfoldable pub weekly_metrics : List (DbSnapshot Double) → Metrics Double
  unfolding no_metrics avg_double avg_int64 latest_int64
  weekly_metrics snapshots = record no_metrics {
    p50_latency_ms = avg_double (λ m. m.p50_latency_ms) snapshots;
    p95_latency_ms = avg_double (λ m. m.p95_latency_ms) snapshots;
    p99_latency_ms = avg_double (λ m. m.p99_latency_ms) snapshots;
    avg_latency_ms = avg_double (λ m. m.avg_latency_ms) snapshots;
    cpu_usage = avg_double (λ m. m.cpu_usage) snapshots;
    memory_usage = avg_int64 (λ m. m.memory_usage) snapshots;
    thread_count = avg_int64 (λ m. m.thread_count) snapshots;
    uptime_seconds = avg_int64 (λ m. m.uptime_seconds) snapshots;
    exchange_p50_ms = avg_double (λ m. m.exchange_p50_ms) snapshots;
    exchange_p95_ms = avg_double (λ m. m.exchange_p95_ms) snapshots;
    exchange_p99_ms = avg_double (λ m. m.exchange_p99_ms) snapshots;
    parsing_p50_ms = avg_double (λ m. m.parsing_p50_ms) snapshots;
    parsing_p95_ms = avg_double (λ m. m.parsing_p95_ms) snapshots;
    parsing_p99_ms = avg_double (λ m. m.parsing_p99_ms) snapshots;
    messages_per_sec = avg_double (λ m. m.messages_per_sec) snapshots;
    packets_per_sec = avg_double (λ m. m.packets_per_sec) snapshots;
    ticks_per_sec = avg_double (λ m. m.ticks_per_sec) snapshots;
    trades_per_sec = avg_double (λ m. m.trades_per_sec) snapshots;
    total_messages = latest_int64 (λ m. m.total_messages) snapshots;
    total_packets = latest_int64 (λ m. m.total_packets) snapshots;
    total_bytes = latest_int64 (λ m. m.total_bytes) snapshots;
    total_ticks = latest_int64 (λ m. m.total_ticks) snapshots;
    incoming_queue_depth = avg_int64 (λ m. m.incoming_queue_depth) snapshots;
    outgoing_queue_depth = avg_int64 (λ m. m.outgoing_queue_depth) snapshots;
    packet_drops = latest_int64 (λ m. m.packet_drops) snapshots;
    duplicate_packets = latest_int64 (λ m. m.duplicate_packets) snapshots;
    out_of_order_packets = latest_int64 (λ m. m.out_of_order_packets) snapshots;
    parse_failures = latest_int64 (λ m. m.parse_failures) snapshots;
    active_clients = avg_int64 (λ m. m.active_clients) snapshots;
    active_sessions = avg_int64 (λ m. m.active_sessions) snapshots;
    active_subscriptions = avg_int64 (λ m. m.active_subscriptions) snapshots;
    tcp_reconnects = latest_int64 (λ m. m.tcp_reconnects) snapshots;
    socket_errors = latest_int64 (λ m. m.socket_errors) snapshots;
    socket_rtt_ms = avg_double (λ m. m.socket_rtt_ms) snapshots;
    network_bandwidth_bps = avg_double (λ m. m.network_bandwidth_bps) snapshots;
    db_successful_writes = latest_int64 (λ m. m.db_successful_writes) snapshots;
    db_failed_writes = latest_int64 (λ m. m.db_failed_writes) snapshots;
    db_insert_latency_ms = avg_double (λ m. m.db_insert_latency_ms) snapshots;
    db_query_latency_ms = avg_double (λ m. m.db_query_latency_ms) snapshots;
    peak_rss = avg_int64 (λ m. m.peak_rss) snapshots;
    virtual_memory = avg_int64 (λ m. m.virtual_memory) snapshots;
    heap_usage = avg_int64 (λ m. m.heap_usage) snapshots;
    memory_growth_rate = avg_double (λ m. m.memory_growth_rate) snapshots;
  }

  unfoldable pub summary_of : String → ℕ → List (DbSnapshot Double) → WeeklySummary Double
  unfolding weekly_metrics
  summary_of instance_id week_end snapshots = record {
    id = pos 0;
    instance_id = instance_id;
    week_start = (week_end - 604800) * 1000;
    sample_count = pos (length snapshots);
    metrics = weekly_metrics snapshots;
  }

  module _ (postgres : Postgres Double) where
    -- after `create_weekly_metrics_summary`: the rows of more than 90 days ago go
    unfoldable pub retain :
        ℕ → Option (WeeklySummary Double) × SAdapter postgres → SAdapter postgres
    retain now (none, a) = a
    retain now (some created, a) = (delete_old_snapshots postgres ((now - 7776000) * 1000) a).1

    unfoldable pub store_week :
        String → ℕ → ℕ → List (DbSnapshot Double) → SAdapter postgres → SAdapter postgres
    unfolding retain summary_of
    store_week instance_id week_end now [] a = a
    store_week instance_id week_end now (s ∷ ss) a =
        retain now
          (create_weekly_metrics_summary postgres (summary_of instance_id week_end (s ∷ ss)) a)

    -- with the end of the week, and the time of the retention
    unfoldable pub process_week : String → ℕ → ℕ → SAdapter postgres → SAdapter postgres
    unfolding store_week
    process_week instance_id week_end now a =
        if a.is_connected
        then store_week instance_id week_end now
            (get_feed_metrics_snapshots_by_condition postgres
              (record {
                instance_id = instance_id;
                from_second = week_end - 604800;
                to_second = week_end;
              })
              a)
            a
        else a

    unfoldable pub check :
        String → ℕ → ℕ → WeeklyRollup × SAdapter postgres → WeeklyRollup × SAdapter postgres
    unfolding process_week
    check instance_id now later (w, a) =
        let (new, w') = is_new_week now w in
        (w', if new then process_week instance_id w'.last_week_start later a else a)
