-- ===== src/Metrics/MetricAggregator/Forgetting.antt =====
-- What `reset` of class MetricAggregator (metrics/metric_aggregator.cpp) leaves behind is not seen: it keeps
-- minima and maxima, and no summary shows them. So the aggregator is one of the state manager's.
use datafeed_server.Prelude.{◌≡◌, refl, List, [], ◌∷◌}
use datafeed_server.Metrics.LatencyTracker.{DoubleArithmetic}
use datafeed_server.Metrics.Snapshot.{Snapshot, blank}
use datafeed_server.Metrics.StateManager.{Aggregation}
use datafeed_server.Metrics.MetricAggregator.{
  MetricAggregator, init, add_snapshot, reset, produce_summary, add_all,
}

module _ (arithmetic : DoubleArithmetic) where
  open arithmetic use {Double, zero_double}

  pub produce_summary-same :
      (a b : MetricAggregator Double)
      → a.running ≡ b.running
      → produce_summary arithmetic a ≡ produce_summary arithmetic b
  unfolding produce_summary
  produce_summary-same a b e = cc

  pub add_snapshot-same :
      (s : Snapshot Double) (a b : MetricAggregator Double)
      → a.running ≡ b.running
      → (add_snapshot arithmetic s a).running ≡ (add_snapshot arithmetic s b).running
  unfolding add_snapshot
  add_snapshot-same s a b e = cc

  pub reset-same :
      (a : MetricAggregator Double) → (reset arithmetic a).running ≡ (init arithmetic).running
  unfolding reset init
  reset-same a = refl

  abbrev pub metric_aggregation : Aggregation
  metric_aggregation = record {
    Snapshot = Snapshot Double;
    blank = blank zero_double;
    Aggregator = MetricAggregator Double;
    fresh = init arithmetic;
    add_snapshot = add_snapshot arithmetic;
    produce_summary = produce_summary arithmetic;
    reset = reset arithmetic;
    Alike = λ a b. a.running ≡ b.running;
    Alike_refl = λ a. refl;
    add_snapshot-Alike = add_snapshot-same;
    produce_summary-Alike = produce_summary-same;
    reset-Alike = reset-same;
  }

  add_all-same :
      (ss : List (Snapshot Double)) (a b : MetricAggregator Double)
      → a.running ≡ b.running
      → (add_all arithmetic ss a).running ≡ (add_all arithmetic ss b).running
  unfolding add_all
  add_all-same [] a b e = e
  add_all-same (s ∷ ss) a b e =
      add_all-same ss (add_snapshot arithmetic s a) (add_snapshot arithmetic s b)
        (add_snapshot-same s a b e)

  -- After a reset an aggregator makes the same summaries as a new one, whatever was added before and
  -- whatever is added later, although it keeps minima and maxima of before.
  pub produce_summary-reset :
      (ss : List (Snapshot Double)) (a : MetricAggregator Double)
      → produce_summary arithmetic (add_all arithmetic ss (reset arithmetic a))
        ≡ produce_summary arithmetic (add_all arithmetic ss (init arithmetic))
  produce_summary-reset ss a =
      produce_summary-same (add_all arithmetic ss (reset arithmetic a))
        (add_all arithmetic ss (init arithmetic))
        (add_all-same ss (reset arithmetic a) (init arithmetic) (reset-same a))
