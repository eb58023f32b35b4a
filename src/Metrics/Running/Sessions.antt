-- ===== src/Metrics/Running/Sessions.antt =====
-- metrics/metric_aggregator.h and metrics/metric_aggregator.cpp: what class MetricAggregator keeps of the
-- sessions of the snapshots, what a snapshot adds, and what it reports.
use datafeed_server.Prelude.{
  Bool, List, [], add64, ap, false, if◌then◌else◌, refl, true, ℕ, ◌/◌, ◌∷◌, ◌≡◌,
}
use datafeed_server.Metrics.LatencyTracker.{DoubleArithmetic}
use datafeed_server.Metrics.Snapshot.{Sessions}
use datafeed_server.Metrics.Running.{sum_double, sum_count, latest}

pub record SessionsRunning (D : Type 0) : Type 0 where
  pub sum_active_clients : ℕ
  pub sum_active_sessions : ℕ
  pub sum_active_subs : ℕ
  pub last_total_conn : ℕ
  pub last_total_disconn : ℕ
  pub last_auth_fail : ℕ
  pub last_reconn : ℕ
  pub sum_avg_dur : D
  pub sum_longest_dur : D
  pub initialized : Bool

module _ (arithmetic : DoubleArithmetic) where
  open arithmetic use {Double, zero_double, plus, over}

  -- the part of `reset`, also that of a new aggregator
  unfoldable pub reset : SessionsRunning Double
  reset = record {
    sum_active_clients = 0;
    sum_active_sessions = 0;
    sum_active_subs = 0;
    last_total_conn = 0;
    last_total_disconn = 0;
    last_auth_fail = 0;
    last_reconn = 0;
    sum_avg_dur = zero_double;
    sum_longest_dur = zero_double;
    initialized = false;
  }

  -- the branch `if (!sessions_initialized_)`, and the other
  unfoldable pub first_sessions : Sessions Double → SessionsRunning Double → SessionsRunning Double
  first_sessions s r = record r {
    sum_active_clients = s.active_clients;
    sum_active_sessions = s.active_sessions;
    sum_active_subs = s.active_subscriptions;
    sum_avg_dur = s.average_session_duration_ms;
    sum_longest_dur = s.longest_session_duration_ms;
    initialized = true;
  }

  unfoldable pub more_sessions : Sessions Double → SessionsRunning Double → SessionsRunning Double
  more_sessions s r = record r {
    sum_active_clients = add64 r.sum_active_clients s.active_clients;
    sum_active_sessions = add64 r.sum_active_sessions s.active_sessions;
    sum_active_subs = add64 r.sum_active_subs s.active_subscriptions;
    sum_avg_dur = plus r.sum_avg_dur s.average_session_duration_ms;
    sum_longest_dur = plus r.sum_longest_dur s.longest_session_duration_ms;
  }

  -- the part of `addSnapshot`
  unfoldable pub add_sessions : Sessions Double → SessionsRunning Double → SessionsRunning Double
  unfolding first_sessions more_sessions
  add_sessions s r = record (if r.initialized then more_sessions s r else first_sessions s r) {
    last_total_conn = s.total_connections;
    last_total_disconn = s.total_disconnections;
    last_auth_fail = s.authentication_failures;
    last_reconn = s.reconnect_count;
  }

  unfoldable pub report_sessions : ℕ → SessionsRunning Double → Sessions Double
  report_sessions count r = record {
    active_clients = r.sum_active_clients / count;
    active_sessions = r.sum_active_sessions / count;
    active_subscriptions = r.sum_active_subs / count;
    total_connections = r.last_total_conn;
    total_disconnections = r.last_total_disconn;
    authentication_failures = r.last_auth_fail;
    reconnect_count = r.last_reconn;
    average_session_duration_ms = over r.sum_avg_dur count;
    longest_session_duration_ms = over r.sum_longest_dur count;
  }

  unfoldable pub add_all : List (Sessions Double) → SessionsRunning Double → SessionsRunning Double
  add_all [] r = r
  add_all (s ∷ ss) r = add_all ss (add_sessions s r)

  -- The state after more snapshots, field by field.
  add_all-sums :
      (ss : List (Sessions Double)) (r : SessionsRunning Double)
      → add_all ss (record r { initialized = true }) ≡ record {
        sum_active_clients = sum_count (λ s. s.active_clients) r.sum_active_clients ss;
        sum_active_sessions = sum_count (λ s. s.active_sessions) r.sum_active_sessions ss;
        sum_active_subs = sum_count (λ s. s.active_subscriptions) r.sum_active_subs ss;
        last_total_conn = latest (λ s. s.total_connections) r.last_total_conn ss;
        last_total_disconn = latest (λ s. s.total_disconnections) r.last_total_disconn ss;
        last_auth_fail = latest (λ s. s.authentication_failures) r.last_auth_fail ss;
        last_reconn = latest (λ s. s.reconnect_count) r.last_reconn ss;
        sum_avg_dur = sum_double arithmetic (λ s. s.average_session_duration_ms) r.sum_avg_dur ss;
        sum_longest_dur =
            sum_double arithmetic (λ s. s.longest_session_duration_ms) r.sum_longest_dur ss;
        initialized = true;
      }
  unfolding add_all add_sessions latest sum_count sum_double
  add_all-sums [] r = refl
  add_all-sums (s ∷ ss) r = add_all-sums ss (add_sessions s (record r { initialized = true }))

  -- What a report on a first snapshot and others says, by the snapshots themselves.
  unfoldable pub summary : ℕ → Sessions Double → List (Sessions Double) → Sessions Double
  summary n first rest = record {
    active_clients = sum_count (λ s. s.active_clients) first.active_clients rest / n;
    active_sessions = sum_count (λ s. s.active_sessions) first.active_sessions rest / n;
    active_subscriptions =
        sum_count (λ s. s.active_subscriptions) first.active_subscriptions rest / n;
    total_connections = latest (λ s. s.total_connections) first.total_connections rest;
    total_disconnections = latest (λ s. s.total_disconnections) first.total_disconnections rest;
    authentication_failures =
        latest (λ s. s.authentication_failures) first.authentication_failures rest;
    reconnect_count = latest (λ s. s.reconnect_count) first.reconnect_count rest;
    average_session_duration_ms =
        over
          (sum_double arithmetic (λ s. s.average_session_duration_ms)
            first.average_session_duration_ms rest)
          n;
    longest_session_duration_ms =
        over
          (sum_double arithmetic (λ s. s.longest_session_duration_ms)
            first.longest_session_duration_ms rest)
          n;
  }

  pub report-add_all :
      (n : ℕ) (first : Sessions Double) (rest : List (Sessions Double))
      → report_sessions n (add_all (first ∷ rest) reset) ≡ summary n first rest
  unfolding report_sessions add_all add_sessions reset summary latest sum_count sum_double
  report-add_all n first rest =
      ap (report_sessions n) (add_all-sums rest (add_sessions first reset))
