-- ===== src/Metrics/MetricAggregator/Examples.antt =====
-- Two snapshots, and the theorems on metrics/metric_aggregator.cpp at them, with whole numbers for `double`.
use datafeed_server.Prelude.{◌≡◌, refl, ℕ, true, List, [], ◌∷◌, arith}
use datafeed_server.Metrics.LatencyTracker.WholeNumbers.{whole_numbers}
use datafeed_server.Metrics.ExchangeMonitor.{ExchangeStats}
use datafeed_server.Metrics.Snapshot.{Snapshot, blank}
use datafeed_server.Metrics.MetricAggregator.{init, reset, produce_summary, add_all}
use datafeed_server.Metrics.MetricAggregator.Summaries.{IsSummary, produce_summary-add_all}
use datafeed_server.Metrics.StateManager as Manager
use datafeed_server.Metrics.StateManager.{Event}
use datafeed_server.Metrics.StateManager.Accounts.{enter_all, enter, enter_snapshot}
use datafeed_server.Metrics.MetricAggregator.Forgetting.{metric_aggregation}
use datafeed_server.Metrics.MetricAggregator.Intervals.{Reported, ledger, summaries-Reported}
use datafeed_server.Metrics.Running.System

abbrev binance : ExchangeStats ℕ
binance = record {
  connected = true;
  uptime_seconds = 7;
  reconnect_count = 1;
  last_heartbeat = 0;
  last_message = 0;
  feed_lag_ms = 2;
  exchange_latency_ms = 3;
  messages_received = 40;
  messages_dropped = 0;
  parse_errors = 0;
  websocket_disconnects = 0;
  heartbeat_failures = 0;
  stale = true;
  connected_since = 0;
}

-- `FeedMetricsSnapshot` with some fields set
abbrev snapshot : ℕ → Snapshot ℕ
unfolding blank
snapshot memory = record (blank 0) {
  system = record {
    cpu_usage_percent = 50;
    memory_rss = memory;
    peak_rss = 90;
    virtual_memory = 100;
    heap_usage = 30;
    memory_growth_rate = 1;
    thread_count = 8;
    uptime_seconds = 60;
  };
  exchange_stats = ("BINANCE", binance) ∷ [];
}

produce_summary-add_all_example : IsSummary whole_numbers (snapshot 10) (snapshot 21 ∷ []) (
    produce_summary whole_numbers (
      add_all whole_numbers
        (snapshot 10 ∷ snapshot 21 ∷ [])
        (reset whole_numbers (add_all whole_numbers (snapshot 99 ∷ []) (init whole_numbers)))))
unfolding snapshot
produce_summary-add_all_example =
    produce_summary-add_all whole_numbers (snapshot 10) (snapshot 21 ∷ [])
      (add_all whole_numbers (snapshot 99 ∷ []) (init whole_numbers)) (omega arith) (omega arith)

abbrev events : List (Event (metric_aggregation whole_numbers))
events =
    Event.set_callback true
    ∷ Event.start 0
    ∷ Event.round (snapshot 10) 60000000000 0
    ∷ Event.round (snapshot 21) 900000000000 900000000001
    ∷ []

summaries-Reported_example :
    Reported whole_numbers
      (ledger whole_numbers events).closed
      (Manager.run
        (metric_aggregation whole_numbers)
        events
        (Manager.init (metric_aggregation whole_numbers))).summaries
unfolding snapshot
summaries-Reported_example =
    summaries-Reported whole_numbers events (unfold enter_all enter enter_snapshot in omega arith)
      (unfold enter_all enter enter_snapshot in omega arith)

memory_is_averaged :
    (System.report_system whole_numbers 2 (
      System.add_all whole_numbers
        ((snapshot 10).system ∷ (snapshot 21).system ∷ [])
        (System.reset whole_numbers))).memory_rss
    ≡ 15
unfolding System.report_system System.add_all System.add_system System.reset snapshot
memory_is_averaged = refl
