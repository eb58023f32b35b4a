-- ===== src/Metrics/Running/Database.antt =====
-- metrics/metric_aggregator.h and metrics/metric_aggregator.cpp: what class MetricAggregator keeps of the
-- database of the snapshots, what a snapshot adds, and what it reports.
use datafeed_server.Prelude.{
  Bool, List, [], add64, ap, false, if◌then◌else◌, refl, true, ℕ, ◌/◌, ◌∷◌, ◌≡◌,
}
use datafeed_server.Metrics.LatencyTracker.{DoubleArithmetic}
use datafeed_server.Metrics.Snapshot.{Database}
use datafeed_server.Metrics.Running.{sum_double, sum_count, latest}

pub record DatabaseRunning (D : Type 0) : Type 0 where
  pub last_db_writes_ok : ℕ
  pub last_db_writes_fail : ℕ
  pub sum_ins_lat : D
  pub sum_qry_lat : D
  pub sum_db_conn : ℕ
  pub last_db_conn_fail : ℕ
  pub last_txn_count : ℕ
  pub sum_db_wps : D
  pub sum_db_rps : D
  pub sum_db_q_wait : ℕ
  pub initialized : Bool

module _ (arithmetic : DoubleArithmetic) where
  open arithmetic use {Double, zero_double, plus, over}

  -- the part of `reset`, also that of a new aggregator
  unfoldable pub reset : DatabaseRunning Double
  reset = record {
    last_db_writes_ok = 0;
    last_db_writes_fail = 0;
    sum_ins_lat = zero_double;
    sum_qry_lat = zero_double;
    sum_db_conn = 0;
    last_db_conn_fail = 0;
    last_txn_count = 0;
    sum_db_wps = zero_double;
    sum_db_rps = zero_double;
    sum_db_q_wait = 0;
    initialized = false;
  }

  -- the branch `if (!database_initialized_)`, and the other
  unfoldable pub first_database : Database Double → DatabaseRunning Double → DatabaseRunning Double
  first_database s r = record r {
    sum_ins_lat = s.insert_latency_ms;
    sum_qry_lat = s.query_latency_ms;
    sum_db_conn = s.active_db_connections;
    sum_db_wps = s.writes_per_sec;
    sum_db_rps = s.reads_per_sec;
    sum_db_q_wait = s.db_queue_waiting;
    initialized = true;
  }

  unfoldable pub more_database : Database Double → DatabaseRunning Double → DatabaseRunning Double
  more_database s r = record r {
    sum_ins_lat = plus r.sum_ins_lat s.insert_latency_ms;
    sum_qry_lat = plus r.sum_qry_lat s.query_latency_ms;
    sum_db_conn = add64 r.sum_db_conn s.active_db_connections;
    sum_db_wps = plus r.sum_db_wps s.writes_per_sec;
    sum_db_rps = plus r.sum_db_rps s.reads_per_sec;
    sum_db_q_wait = add64 r.sum_db_q_wait s.db_queue_waiting;
  }

  -- the part of `addSnapshot`
  unfoldable pub add_database : Database Double → DatabaseRunning Double → DatabaseRunning Double
  unfolding first_database more_database
  add_database s r = record (if r.initialized then more_database s r else first_database s r) {
    last_db_writes_ok = s.successful_writes;
    last_db_writes_fail = s.failed_writes;
    last_db_conn_fail = s.db_connection_failures;
    last_txn_count = s.transaction_count;
  }

  unfoldable pub report_database : ℕ → DatabaseRunning Double → Database Double
  report_database count r = record {
    successful_writes = r.last_db_writes_ok;
    failed_writes = r.last_db_writes_fail;
    insert_latency_ms = over r.sum_ins_lat count;
    query_latency_ms = over r.sum_qry_lat count;
    active_db_connections = r.sum_db_conn / count;
    db_connection_failures = r.last_db_conn_fail;
    transaction_count = r.last_txn_count;
    writes_per_sec = over r.sum_db_wps count;
    reads_per_sec = over r.sum_db_rps count;
    db_queue_waiting = r.sum_db_q_wait / count;
  }

  unfoldable pub add_all : List (Database Double) → DatabaseRunning Double → DatabaseRunning Double
  add_all [] r = r
  add_all (s ∷ ss) r = add_all ss (add_database s r)

  -- The state after more snapshots, field by field.
  add_all-sums :
      (ss : List (Database Double)) (r : DatabaseRunning Double)
      → add_all ss (record r { initialized = true }) ≡ record {
        last_db_writes_ok = latest (λ s. s.successful_writes) r.last_db_writes_ok ss;
        last_db_writes_fail = latest (λ s. s.failed_writes) r.last_db_writes_fail ss;
        sum_ins_lat = sum_double arithmetic (λ s. s.insert_latency_ms) r.sum_ins_lat ss;
        sum_qry_lat = sum_double arithmetic (λ s. s.query_latency_ms) r.sum_qry_lat ss;
        sum_db_conn = sum_count (λ s. s.active_db_connections) r.sum_db_conn ss;
        last_db_conn_fail = latest (λ s. s.db_connection_failures) r.last_db_conn_fail ss;
        last_txn_count = latest (λ s. s.transaction_count) r.last_txn_count ss;
        sum_db_wps = sum_double arithmetic (λ s. s.writes_per_sec) r.sum_db_wps ss;
        sum_db_rps = sum_double arithmetic (λ s. s.reads_per_sec) r.sum_db_rps ss;
        sum_db_q_wait = sum_count (λ s. s.db_queue_waiting) r.sum_db_q_wait ss;
        initialized = true;
      }
  unfolding add_all add_database latest sum_count sum_double
  add_all-sums [] r = refl
  add_all-sums (s ∷ ss) r = add_all-sums ss (add_database s (record r { initialized = true }))

  -- What a report on a first snapshot and others says, by the snapshots themselves.
  unfoldable pub summary : ℕ → Database Double → List (Database Double) → Database Double
  summary n first rest = record {
    successful_writes = latest (λ s. s.successful_writes) first.successful_writes rest;
    failed_writes = latest (λ s. s.failed_writes) first.failed_writes rest;
    insert_latency_ms =
        over (sum_double arithmetic (λ s. s.insert_latency_ms) first.insert_latency_ms rest) n;
    query_latency_ms =
        over (sum_double arithmetic (λ s. s.query_latency_ms) first.query_latency_ms rest) n;
    active_db_connections =
        sum_count (λ s. s.active_db_connections) first.active_db_connections rest / n;
    db_connection_failures =
        latest (λ s. s.db_connection_failures) first.db_connection_failures rest;
    transaction_count = latest (λ s. s.transaction_count) first.transaction_count rest;
    writes_per_sec =
        over (sum_double arithmetic (λ s. s.writes_per_sec) first.writes_per_sec rest) n;
    reads_per_sec = over (sum_double arithmetic (λ s. s.reads_per_sec) first.reads_per_sec rest) n;
    db_queue_waiting = sum_count (λ s. s.db_queue_waiting) first.db_queue_waiting rest / n;
  }

  pub report-add_all :
      (n : ℕ) (first : Database Double) (rest : List (Database Double))
      → report_database n (add_all (first ∷ rest) reset) ≡ summary n first rest
  unfolding report_database add_all add_database reset summary latest sum_count sum_double
  report-add_all n first rest =
      ap (report_database n) (add_all-sums rest (add_database first reset))
