-- ===== src/Metrics/DatabaseMonitor.antt =====
-- metrics/database_monitor.h and metrics/database_monitor.cpp, class DatabaseMonitor, with the calls taken one
-- after the other. `getStats` returns the fields. A `double` is a value of any type `D`, only stored.
use datafeed_server.Prelude.{ℕ, List, [], ◌∷◌}
use datafeed_server.Metrics.Atomics.{bump}

pub record DatabaseMonitor {ℓ} (D : Type ℓ) : Type ℓ where
  pub successful_writes : ℕ
  pub failed_writes : ℕ
  pub insert_latency_ms : D
  pub query_latency_ms : D
  pub active_connections : ℕ
  pub connection_failures : ℕ
  pub transaction_count : ℕ
  pub writes_per_sec : D
  pub reads_per_sec : D
  pub queue_waiting : ℕ

pub data Call {ℓ} (D : Type ℓ) : Type ℓ where
  successful_write : Call D
  failed_write : Call D
  insert_latency : D → Call D
  query_latency : D → Call D
  active_connections : ℕ → Call D
  connection_failure : Call D
  transaction : Call D
  writes_per_sec : D → Call D
  reads_per_sec : D → Call D
  queue_waiting : ℕ → Call D
  resets : Call D

module _ {ℓ} {D : Type ℓ} (zero_ms : D) where
  -- also the state of a new monitor
  unfoldable pub reset : DatabaseMonitor D
  reset = record {
    successful_writes = 0;
    failed_writes = 0;
    insert_latency_ms = zero_ms;
    query_latency_ms = zero_ms;
    active_connections = 0;
    connection_failures = 0;
    transaction_count = 0;
    writes_per_sec = zero_ms;
    reads_per_sec = zero_ms;
    queue_waiting = 0;
  }

  unfoldable pub step : Call D → DatabaseMonitor D → DatabaseMonitor D
  unfolding bump reset
  step Call.successful_write m = record m { successful_writes = bump m.successful_writes }
  step Call.failed_write m = record m { failed_writes = bump m.failed_writes }
  step (Call.insert_latency v) m = record m { insert_latency_ms = v }
  step (Call.query_latency v) m = record m { query_latency_ms = v }
  step (Call.active_connections v) m = record m { active_connections = v }
  step Call.connection_failure m = record m { connection_failures = bump m.connection_failures }
  step Call.transaction m = record m { transaction_count = bump m.transaction_count }
  step (Call.writes_per_sec v) m = record m { writes_per_sec = v }
  step (Call.reads_per_sec v) m = record m { reads_per_sec = v }
  step (Call.queue_waiting v) m = record m { queue_waiting = v }
  step Call.resets m = reset

  unfoldable pub run : List (Call D) → DatabaseMonitor D → DatabaseMonitor D
  run [] m = m
  run (c ∷ cs) m = run cs (step c m)
