-- ===== src/Metrics/Running/Exchanges.antt =====
-- metrics/metric_aggregator.h and metrics/metric_aggregator.cpp: what class MetricAggregator keeps of each
-- exchange, and what it reports.
use datafeed_server.Prelude.{
  ℕ, ◌≡◌, refl, ap, List, [], ◌∷◌, Option, none, some, ◌/◌, Bool, false, if◌then◌else◌, ltb, add64,
  ◌∙◌, String, lookup, string_key, length, ◌+◌, ◌<◌, u64_mod, add64_small, arith,
}
use datafeed_server.Metrics.LatencyTracker.{DoubleArithmetic}
use datafeed_server.Metrics.ExchangeMonitor.{ExchangeStats}
use datafeed_server.Metrics.Running.{sum_double, sum_count, count_true, count_if}
use datafeed_server.Metrics.Running.Entries.{
  continued, add_maps, values_of, lookup-add_maps, report_entries, lookup-report_entries,
}

-- `ExchangeRunning`
pub record ExchangeRunning (D : Type 0) : Type 0 where
  pub sum_uptime : D
  pub sum_reconn : ℕ
  pub sum_hb_fail : ℕ
  pub sum_ws_disc : ℕ
  pub sum_msgs_recv : ℕ
  pub sum_msgs_drop : ℕ
  pub sum_parse_err : ℕ
  pub sum_feed_lag : D
  pub sum_ex_lat : D
  pub connected_count : ℕ
  pub stale_count : ℕ
  pub sample_count : ℕ
  pub last_connected : Bool
  pub last_stale : Bool

module _ (arithmetic : DoubleArithmetic) where
  open arithmetic use {Double, zero_double, plus, over}

  unfoldable pub new_running : ExchangeRunning Double
  new_running = record {
    sum_uptime = zero_double;
    sum_feed_lag = zero_double;
    sum_ex_lat = zero_double;
    sum_reconn = 0;
    sum_hb_fail = 0;
    sum_ws_disc = 0;
    sum_msgs_recv = 0;
    sum_msgs_drop = 0;
    sum_parse_err = 0;
    connected_count = 0;
    stale_count = 0;
    sample_count = 0;
    last_connected = false;
    last_stale = false;
  }

  -- the body of the loop of `addSnapshot`
  unfoldable pub add_exchange :
      ExchangeStats Double → ExchangeRunning Double → ExchangeRunning Double
  add_exchange es r = record {
    sum_uptime = plus r.sum_uptime es.uptime_seconds;
    sum_feed_lag = plus r.sum_feed_lag es.feed_lag_ms;
    sum_ex_lat = plus r.sum_ex_lat es.exchange_latency_ms;
    sum_reconn = add64 r.sum_reconn es.reconnect_count;
    sum_hb_fail = add64 r.sum_hb_fail es.heartbeat_failures;
    sum_ws_disc = add64 r.sum_ws_disc es.websocket_disconnects;
    sum_msgs_recv = add64 r.sum_msgs_recv es.messages_received;
    sum_msgs_drop = add64 r.sum_msgs_drop es.messages_dropped;
    sum_parse_err = add64 r.sum_parse_err es.parse_errors;
    connected_count = count_if es.connected r.connected_count;
    stale_count = count_if es.stale r.stale_count;
    sample_count = add64 r.sample_count 1;
    last_connected = es.connected;
    last_stale = es.stale;
  }

  -- that of the loop of `produceSummary`; the other divisions are made without the test
  unfoldable pub report_exchange : ExchangeRunning Double → ExchangeStats Double
  report_exchange r = record {
    connected = ltb (r.sample_count / 2) r.connected_count;
    stale = ltb (r.sample_count / 2) r.stale_count;
    uptime_seconds = if ltb 0 r.sample_count then over r.sum_uptime r.sample_count else zero_double;
    feed_lag_ms = if ltb 0 r.sample_count then over r.sum_feed_lag r.sample_count else zero_double;
    exchange_latency_ms =
        if ltb 0 r.sample_count then over r.sum_ex_lat r.sample_count else zero_double;
    reconnect_count = r.sum_reconn / r.sample_count;
    heartbeat_failures = r.sum_hb_fail / r.sample_count;
    websocket_disconnects = r.sum_ws_disc / r.sample_count;
    messages_received = r.sum_msgs_recv / r.sample_count;
    messages_dropped = r.sum_msgs_drop / r.sample_count;
    parse_errors = r.sum_parse_err / r.sample_count;
    last_heartbeat = 0;
    last_message = 0;
    connected_since = 0;
  }

  samples_from : ℕ → List (ExchangeStats Double) → ℕ
  samples_from n [] = n
  samples_from n (es ∷ rest) = samples_from (add64 n 1) rest

  last_of : (ExchangeStats Double → Bool) → Bool → List (ExchangeStats Double) → Bool
  last_of f b [] = b
  last_of f b (es ∷ rest) = last_of f (f es) rest

  -- The state after more statistics, field by field.
  continued-sums :
      (rest : List (ExchangeStats Double)) (r : ExchangeRunning Double)
      → continued add_exchange new_running (some r) rest
        ≡ some (record {
          sum_uptime = sum_double arithmetic (λ s. s.uptime_seconds) r.sum_uptime rest;
          sum_feed_lag = sum_double arithmetic (λ s. s.feed_lag_ms) r.sum_feed_lag rest;
          sum_ex_lat = sum_double arithmetic (λ s. s.exchange_latency_ms) r.sum_ex_lat rest;
          sum_reconn = sum_count (λ s. s.reconnect_count) r.sum_reconn rest;
          sum_hb_fail = sum_count (λ s. s.heartbeat_failures) r.sum_hb_fail rest;
          sum_ws_disc = sum_count (λ s. s.websocket_disconnects) r.sum_ws_disc rest;
          sum_msgs_recv = sum_count (λ s. s.messages_received) r.sum_msgs_recv rest;
          sum_msgs_drop = sum_count (λ s. s.messages_dropped) r.sum_msgs_drop rest;
          sum_parse_err = sum_count (λ s. s.parse_errors) r.sum_parse_err rest;
          connected_count = count_true (λ s. s.connected) r.connected_count rest;
          stale_count = count_true (λ s. s.stale) r.stale_count rest;
          sample_count = samples_from r.sample_count rest;
          last_connected = last_of (λ s. s.connected) r.last_connected rest;
          last_stale = last_of (λ s. s.stale) r.last_stale rest;
        })
  unfolding continued add_exchange sum_double sum_count count_true samples_from last_of
  continued-sums [] r = refl
  continued-sums (es ∷ rest) r = continued-sums rest (add_exchange es r)

  samples_from_lem :
      (k : ℕ) (rest : List (ExchangeStats Double))
      → k + length rest < u64_mod
      → samples_from k rest ≡ k + length rest
  unfolding samples_from
  samples_from_lem k [] h = omega arith
  samples_from_lem k (es ∷ rest) h =
      rw (add64_small k 1 (omega arith))
        (omega (arith, samples_from_lem (k + 1) rest (omega arith)))

  -- What a report on an exchange says, by the statistics of the snapshots that have the exchange, `n` of them.
  unfoldable pub exchange_stats_of : ℕ → List (ExchangeStats Double) → ExchangeStats Double
  exchange_stats_of n all = record {
    connected = ltb (n / 2) (count_true (λ s. s.connected) 0 all);
    stale = ltb (n / 2) (count_true (λ s. s.stale) 0 all);
    uptime_seconds = over (sum_double arithmetic (λ s. s.uptime_seconds) zero_double all) n;
    feed_lag_ms = over (sum_double arithmetic (λ s. s.feed_lag_ms) zero_double all) n;
    exchange_latency_ms =
        over (sum_double arithmetic (λ s. s.exchange_latency_ms) zero_double all) n;
    reconnect_count = sum_count (λ s. s.reconnect_count) 0 all / n;
    heartbeat_failures = sum_count (λ s. s.heartbeat_failures) 0 all / n;
    websocket_disconnects = sum_count (λ s. s.websocket_disconnects) 0 all / n;
    messages_received = sum_count (λ s. s.messages_received) 0 all / n;
    messages_dropped = sum_count (λ s. s.messages_dropped) 0 all / n;
    parse_errors = sum_count (λ s. s.parse_errors) 0 all / n;
    last_heartbeat = 0;
    last_message = 0;
    connected_since = 0;
  }

  unfoldable pub exchange_summary : List (ExchangeStats Double) → Option (ExchangeStats Double)
  unfolding exchange_stats_of
  exchange_summary [] = none
  exchange_summary (first ∷ rest) = some (exchange_stats_of (length (first ∷ rest)) (first ∷ rest))

  reported : Option (ExchangeRunning Double) → Option (ExchangeStats Double)
  reported none = none
  reported (some r) = some (report_exchange r)

  -- a report, where the number of samples is known
  with_count :
      (n : ℕ) (r : ExchangeRunning Double)
      → 0 < n
      → r.sample_count ≡ n
      → report_exchange r ≡ record {
        connected = ltb (n / 2) r.connected_count;
        stale = ltb (n / 2) r.stale_count;
        uptime_seconds = over r.sum_uptime n;
        feed_lag_ms = over r.sum_feed_lag n;
        exchange_latency_ms = over r.sum_ex_lat n;
        reconnect_count = r.sum_reconn / n;
        heartbeat_failures = r.sum_hb_fail / n;
        websocket_disconnects = r.sum_ws_disc / n;
        messages_received = r.sum_msgs_recv / n;
        messages_dropped = r.sum_msgs_drop / n;
        parse_errors = r.sum_parse_err / n;
        last_heartbeat = 0;
        last_message = 0;
        connected_since = 0;
      }
  unfolding report_exchange
  with_count n r h e = ground arith

  report_continued :
      (all : List (ExchangeStats Double))
      → length all < u64_mod
      → reported (continued add_exchange new_running none all) ≡ exchange_summary all
  unfolding continued exchange_summary reported add_exchange new_running count_true sum_count
      sum_double
  report_continued [] h = refl
  report_continued (first ∷ rest) h =
      ap reported (continued-sums rest (add_exchange first new_running))
      ∙ ap some (
          with_count (length (first ∷ rest)) _ (omega arith)
            (samples_from_lem 1 rest (omega arith) ∙ omega arith))

  reported_elim :
      (o : Option (ExchangeRunning Double))
      → (elim o [ none ↦ none | some r ↦ some (report_exchange r) ]) ≡ reported o
  unfolding reported
  reported_elim none = refl
  reported_elim (some r) = refl

  pub lookup_exchange :
      (k : String) (maps : List (List (String × ExchangeStats Double)))
      → length (values_of k maps) < u64_mod
      → lookup k (report_entries report_exchange (add_maps add_exchange new_running maps []))
        ≡ exchange_summary (values_of k maps)
  unfolding reported lookup
  lookup_exchange k maps h =
      lookup-report_entries report_exchange k (add_maps add_exchange new_running maps [])
      ∙ reported_elim (lookup k (add_maps add_exchange new_running maps []))
      ∙ ap reported (lookup-add_maps add_exchange new_running k maps [])
      ∙ report_continued (values_of k maps) h
