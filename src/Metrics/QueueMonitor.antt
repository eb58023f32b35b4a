-- ===== src/Metrics/QueueMonitor.antt =====
-- metrics/queue_monitor.h and metrics/queue_monitor.cpp, class QueueMonitor. Its three queues have the same
-- methods, so a queue is a gauge and a method of the class acts on one of the three. The calls are taken
-- one after the other (`Atomics.Races` has what happens otherwise); the loop that raises a maximum is
-- replaced by its result (`Atomics.Raising`). A `double` is a value of any type `D`, only stored.
pub mod Peaks
mod Examples
use datafeed_server.Prelude.{ℕ, Bool, false, List, [], ◌∷◌}
use datafeed_server.Metrics.Atomics.{bump, drop_one, raised}

-- the depth of a queue and its largest
pub record Gauge : Type 0 where
  pub depth : ℕ
  pub peak : ℕ

unfoldable pub increment : Gauge → Gauge
unfolding bump raised
increment g = record { depth = bump g.depth; peak = raised (bump g.depth) g.peak }

unfoldable pub decrement : Gauge → Gauge
unfolding drop_one
decrement g = record g { depth = drop_one g.depth }

unfoldable pub set_depth : ℕ → Gauge → Gauge
unfolding raised
set_depth depth g = record { depth = depth; peak = raised depth g.peak }

abbrev pub no_gauge : Gauge
no_gauge = record { depth = 0; peak = 0 }

pub record QueueMonitor {ℓ} (D : Type ℓ) : Type ℓ where
  pub incoming : Gauge
  pub outgoing : Gauge
  pub serialization : Gauge
  pub overflow_count : ℕ
  pub backpressure : Bool
  pub queue_wait_time_ms : D
  pub queue_processing_time_ms : D

pub data Queue : Type 0 where
  incoming outgoing serialization : Queue

-- `incrementIncoming` and its like, up to `recordProcessingTime`
pub data Call {ℓ} (D : Type ℓ) : Type ℓ where
  increments decrements : Queue → Call D
  sets : Queue → ℕ → Call D
  overflows : Call D
  sets_backpressure : Bool → Call D
  records_wait_time records_processing_time : D → Call D
  resets : Call D

module _ {ℓ} {D : Type ℓ} (zero_ms : D) where
  unfoldable pub reset : QueueMonitor D
  reset = record {
    incoming = no_gauge;
    outgoing = no_gauge;
    serialization = no_gauge;
    overflow_count = 0;
    backpressure = false;
    queue_wait_time_ms = zero_ms;
    queue_processing_time_ms = zero_ms;
  }

  unfoldable pub on_queue : (Gauge → Gauge) → Queue → QueueMonitor D → QueueMonitor D
  on_queue f Queue.incoming m = record m { incoming = f m.incoming }
  on_queue f Queue.outgoing m = record m { outgoing = f m.outgoing }
  on_queue f Queue.serialization m = record m { serialization = f m.serialization }

  unfoldable pub step : Call D → QueueMonitor D → QueueMonitor D
  unfolding bump on_queue reset
  step (Call.increments q) m = on_queue increment q m
  step (Call.decrements q) m = on_queue decrement q m
  step (Call.sets q depth) m = on_queue (set_depth depth) q m
  step Call.overflows m = record m { overflow_count = bump m.overflow_count }
  step (Call.sets_backpressure active) m = record m { backpressure = active }
  step (Call.records_wait_time ms) m = record m { queue_wait_time_ms = ms }
  step (Call.records_processing_time ms) m = record m { queue_processing_time_ms = ms }
  step Call.resets m = reset

  unfoldable pub run : List (Call D) → QueueMonitor D → QueueMonitor D
  run [] m = m
  run (c ∷ cs) m = run cs (step c m)
