-- ===== src/Metrics/StateManager.antt =====
-- metrics/state_manager.h and metrics/state_manager.cpp, class StateManager: the worker that takes a snapshot
-- each second, keeps the recent ones in a ring and has each interval summarised. Snapshots and their
-- aggregation are an interface, which metrics/metric_aggregator.h has. A time is what
-- `steady_clock::now()` returns, in nanoseconds. `stop` joins the worker, so a round is done as a whole; a
-- round in a manager that does not run stands for nothing.
pub mod Accounts
pub mod Runs
mod Examples
use datafeed_server.Prelude.{
  ℕ, ◌-◌, ◌/◌, Bool, true, false, List, [], ◌∷◌, ◌++◌, if◌then◌else◌, leb, ◌≡◌,
}
use datafeed_server.Metrics.RingBuffer.{RingBuffer, push, init as empty_ring}

-- FeedMetricsSnapshot and MetricAggregator: a new aggregator, `addSnapshot`, `produceSummary` and `reset`.
-- Aggregators that are alike make the same summaries; `MetricAggregator.Forgetting` has the source's.
pub record Aggregation : Type 1 where
  pub Snapshot : Type 0
  pub blank : Snapshot
  pub Aggregator : Type 0
  pub fresh : Aggregator
  pub add_snapshot : Snapshot → Aggregator → Aggregator
  pub produce_summary : Aggregator → Snapshot
  pub reset : Aggregator → Aggregator
  pub Alike : Aggregator → Aggregator → Type 0
  pub Alike_refl : (a : Aggregator) → Alike a a
  pub add_snapshot-Alike :
      (s : Snapshot) (a b : Aggregator) → Alike a b → Alike (add_snapshot s a) (add_snapshot s b)
  pub produce_summary-Alike : (a b : Aggregator) → Alike a b → produce_summary a ≡ produce_summary b
  pub reset-Alike : (a : Aggregator) → Alike (reset a) fresh

abbrev pub ring_capacity : ℕ
ring_capacity = 900

module _ (aggregation : Aggregation) where
  open aggregation use {Snapshot, blank, Aggregator, fresh, add_snapshot, produce_summary, reset}

  -- with the summaries that the callback was called with, in order
  pub record StateManager : Type 0 where
    pub running : Bool
    pub has_snapshot : Bool
    pub latest_snapshot : Snapshot
    pub ring : RingBuffer Snapshot
    pub aggregator : Aggregator
    pub interval_start : ℕ
    pub has_callback : Bool
    pub summaries : List Snapshot

  unfoldable pub init : StateManager
  init = record {
    running = false;
    has_snapshot = false;
    latest_snapshot = blank;
    ring = empty_ring ring_capacity blank;
    aggregator = fresh;
    interval_start = 0;
    has_callback = false;
    summaries = [];
  }

  -- `start` with the time; `stop`; `setSummaryCallback` with whether the callback can be called; and a
  -- round of the worker, with its snapshot and what the clock returns at its beginning and at its end
  pub data Event : Type 0 where
    start : ℕ → Event
    stop : Event
    set_callback : Bool → Event
    round : Snapshot → ℕ → ℕ → Event

  unfoldable pub start_at : ℕ → StateManager → StateManager
  start_at now m = if m.running then m else record m { running = true; interval_start = now }

  -- the live snapshot, the ring and the aggregator
  unfoldable pub take_snapshot : Snapshot → StateManager → StateManager
  take_snapshot snapshot m = record m {
    latest_snapshot = snapshot;
    has_snapshot = true;
    ring = push ring_capacity blank snapshot m.ring;
    aggregator = add_snapshot snapshot m.aggregator;
  }

  -- the end of an interval
  unfoldable pub close_interval : ℕ → StateManager → StateManager
  close_interval restart m = record m {
    summaries =
        if m.has_callback then m.summaries ++ (produce_summary m.aggregator ∷ []) else m.summaries;
    aggregator = reset m.aggregator;
    interval_start = restart;
  }

  -- `duration_cast<minutes>(now - interval_start_) >= AggregationInterval`
  unfoldable pub is_over : ℕ → ℕ → Bool
  is_over now interval_start = leb 15 ((now - interval_start) / 60000000000)

  unfoldable pub run_round : Snapshot → ℕ → ℕ → StateManager → StateManager
  run_round snapshot now restart m =
      let taken = take_snapshot snapshot m in
      if is_over now m.interval_start then close_interval restart taken else taken

  unfoldable pub step : Event → StateManager → StateManager
  step (Event.start now) m = start_at now m
  step Event.stop m = record m { running = false }
  step (Event.set_callback b) m = record m { has_callback = b }
  step (Event.round snapshot now restart) m =
      if m.running then run_round snapshot now restart m else m

  unfoldable pub run : List Event → StateManager → StateManager
  run [] m = m
  run (e ∷ es) m = run es (step e m)

  unfoldable pub get_live_snapshot : StateManager → Snapshot
  get_live_snapshot m = if m.has_snapshot then m.latest_snapshot else blank
