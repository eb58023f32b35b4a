-- ===== src/Metrics/Running/Queues.antt =====
-- metrics/metric_aggregator.h and metrics/metric_aggregator.cpp: what class MetricAggregator keeps of the
-- queues of the snapshots, what a snapshot adds, and what it reports.
use datafeed_server.Prelude.{
  Bool, List, [], add64, ap, false, if◌then◌else◌, ltb, refl, true, ℕ, ◌/◌, ◌∷◌, ◌≡◌,
}
use datafeed_server.Metrics.LatencyTracker.{DoubleArithmetic}
use datafeed_server.Metrics.Snapshot.{Queues}
use datafeed_server.Metrics.Running.{sum_double, sum_count, count_true, count_if}

pub record QueuesRunning (D : Type 0) : Type 0 where
  pub sum_in_q : ℕ
  pub sum_out_q : ℕ
  pub sum_ser_q : ℕ
  pub sum_max_in_q : ℕ
  pub sum_max_out_q : ℕ
  pub sum_max_ser_q : ℕ
  pub sum_overflow : ℕ
  pub sum_wait_ms : D
  pub sum_proc_ms : D
  pub bp_true_count : ℕ
  pub initialized : Bool

module _ (arithmetic : DoubleArithmetic) where
  open arithmetic use {Double, zero_double, plus, over}

  -- the part of `reset`, also that of a new aggregator
  unfoldable pub reset : QueuesRunning Double
  reset = record {
    sum_in_q = 0;
    sum_out_q = 0;
    sum_ser_q = 0;
    sum_max_in_q = 0;
    sum_max_out_q = 0;
    sum_max_ser_q = 0;
    sum_overflow = 0;
    sum_wait_ms = zero_double;
    sum_proc_ms = zero_double;
    bp_true_count = 0;
    initialized = false;
  }

  -- the branch `if (!queues_initialized_)`, and the other
  unfoldable pub first_queues : Queues Double → QueuesRunning Double → QueuesRunning Double
  first_queues s r = record r {
    sum_in_q = s.incoming_queue_depth;
    sum_out_q = s.outgoing_queue_depth;
    sum_ser_q = s.serialization_queue_depth;
    sum_max_in_q = s.max_incoming_queue_depth;
    sum_max_out_q = s.max_outgoing_queue_depth;
    sum_max_ser_q = s.max_serialization_queue_depth;
    sum_overflow = s.queue_overflow_count;
    sum_wait_ms = s.queue_wait_time_ms;
    sum_proc_ms = s.queue_processing_time_ms;
    bp_true_count = if s.queue_backpressure then 1 else 0;
    initialized = true;
  }

  unfoldable pub more_queues : Queues Double → QueuesRunning Double → QueuesRunning Double
  more_queues s r = record r {
    sum_in_q = add64 r.sum_in_q s.incoming_queue_depth;
    sum_out_q = add64 r.sum_out_q s.outgoing_queue_depth;
    sum_ser_q = add64 r.sum_ser_q s.serialization_queue_depth;
    sum_max_in_q = add64 r.sum_max_in_q s.max_incoming_queue_depth;
    sum_max_out_q = add64 r.sum_max_out_q s.max_outgoing_queue_depth;
    sum_max_ser_q = add64 r.sum_max_ser_q s.max_serialization_queue_depth;
    sum_overflow = add64 r.sum_overflow s.queue_overflow_count;
    sum_wait_ms = plus r.sum_wait_ms s.queue_wait_time_ms;
    sum_proc_ms = plus r.sum_proc_ms s.queue_processing_time_ms;
    bp_true_count = count_if s.queue_backpressure r.bp_true_count;
  }

  -- the part of `addSnapshot`
  unfoldable pub add_queues : Queues Double → QueuesRunning Double → QueuesRunning Double
  unfolding first_queues more_queues
  add_queues s r = if r.initialized then more_queues s r else first_queues s r

  unfoldable pub report_queues : ℕ → QueuesRunning Double → Queues Double
  report_queues count r = record {
    incoming_queue_depth = r.sum_in_q / count;
    outgoing_queue_depth = r.sum_out_q / count;
    serialization_queue_depth = r.sum_ser_q / count;
    max_incoming_queue_depth = r.sum_max_in_q / count;
    max_outgoing_queue_depth = r.sum_max_out_q / count;
    max_serialization_queue_depth = r.sum_max_ser_q / count;
    queue_overflow_count = r.sum_overflow / count;
    queue_backpressure = ltb (count / 2) r.bp_true_count;
    queue_wait_time_ms = over r.sum_wait_ms count;
    queue_processing_time_ms = over r.sum_proc_ms count;
  }

  unfoldable pub add_all : List (Queues Double) → QueuesRunning Double → QueuesRunning Double
  add_all [] r = r
  add_all (s ∷ ss) r = add_all ss (add_queues s r)

  -- The state after more snapshots, field by field.
  add_all-sums :
      (ss : List (Queues Double)) (r : QueuesRunning Double)
      → add_all ss (record r { initialized = true }) ≡ record {
        sum_in_q = sum_count (λ s. s.incoming_queue_depth) r.sum_in_q ss;
        sum_out_q = sum_count (λ s. s.outgoing_queue_depth) r.sum_out_q ss;
        sum_ser_q = sum_count (λ s. s.serialization_queue_depth) r.sum_ser_q ss;
        sum_max_in_q = sum_count (λ s. s.max_incoming_queue_depth) r.sum_max_in_q ss;
        sum_max_out_q = sum_count (λ s. s.max_outgoing_queue_depth) r.sum_max_out_q ss;
        sum_max_ser_q = sum_count (λ s. s.max_serialization_queue_depth) r.sum_max_ser_q ss;
        sum_overflow = sum_count (λ s. s.queue_overflow_count) r.sum_overflow ss;
        sum_wait_ms = sum_double arithmetic (λ s. s.queue_wait_time_ms) r.sum_wait_ms ss;
        sum_proc_ms = sum_double arithmetic (λ s. s.queue_processing_time_ms) r.sum_proc_ms ss;
        bp_true_count = count_true (λ s. s.queue_backpressure) r.bp_true_count ss;
        initialized = true;
      }
  unfolding add_all add_queues count_true sum_count sum_double count_if
  add_all-sums [] r = refl
  add_all-sums (s ∷ ss) r = add_all-sums ss (add_queues s (record r { initialized = true }))

  -- What a report on a first snapshot and others says, by the snapshots themselves.
  unfoldable pub summary : ℕ → Queues Double → List (Queues Double) → Queues Double
  summary n first rest = record {
    incoming_queue_depth =
        sum_count (λ s. s.incoming_queue_depth) first.incoming_queue_depth rest / n;
    outgoing_queue_depth =
        sum_count (λ s. s.outgoing_queue_depth) first.outgoing_queue_depth rest / n;
    serialization_queue_depth =
        sum_count (λ s. s.serialization_queue_depth) first.serialization_queue_depth rest / n;
    max_incoming_queue_depth =
        sum_count (λ s. s.max_incoming_queue_depth) first.max_incoming_queue_depth rest / n;
    max_outgoing_queue_depth =
        sum_count (λ s. s.max_outgoing_queue_depth) first.max_outgoing_queue_depth rest / n;
    max_serialization_queue_depth =
        sum_count (λ s. s.max_serialization_queue_depth) first.max_serialization_queue_depth rest
        / n;
    queue_overflow_count =
        sum_count (λ s. s.queue_overflow_count) first.queue_overflow_count rest / n;
    queue_backpressure = ltb (n / 2) (count_true (λ s. s.queue_backpressure) 0 (first ∷ rest));
    queue_wait_time_ms =
        over (sum_double arithmetic (λ s. s.queue_wait_time_ms) first.queue_wait_time_ms rest) n;
    queue_processing_time_ms =
        over
          (sum_double arithmetic (λ s. s.queue_processing_time_ms) first.queue_processing_time_ms
            rest)
          n;
  }

  pub report-add_all :
      (n : ℕ) (first : Queues Double) (rest : List (Queues Double))
      → report_queues n (add_all (first ∷ rest) reset) ≡ summary n first rest
  unfolding report_queues add_all add_queues reset summary count_true sum_count sum_double count_if
  report-add_all n first rest = ap (report_queues n) (add_all-sums rest (add_queues first reset))
