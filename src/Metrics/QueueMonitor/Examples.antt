-- ===== src/Metrics/QueueMonitor/Examples.antt =====
-- A queue that fills and drains, and the theorems of metrics/queue_monitor.cpp at it.
use datafeed_server.Prelude.{ℕ, ◌≤◌, ◌≡◌, refl, true, List, [], ◌∷◌, some, arith}
use datafeed_server.Metrics.Atomics.{raise_max, raised}
use datafeed_server.Metrics.Atomics.Raising.{raise_max-ends}
use datafeed_server.Metrics.QueueMonitor.{
  Call, Queue, run, reset, step, increment, decrement, set_depth,
}
use datafeed_server.Metrics.QueueMonitor.Peaks.{gauge_of, largest, run-peak}

abbrev traffic : List (Call ℕ)
traffic =
    Call.sets Queue.incoming 4
    ∷ Call.resets
    ∷ Call.increments Queue.incoming
    ∷ Call.increments Queue.incoming
    ∷ Call.decrements Queue.incoming
    ∷ []

peak_of_traffic : (gauge_of Queue.incoming (run 0 traffic (reset 0))).peak ≡ 2
unfolding run step reset increment decrement set_depth gauge_of
peak_of_traffic = refl

raise_max-ends_example : raise_max 4 (true ∷ []) 7 5 ≡ some (raised 7 5)
raise_max-ends_example = raise_max-ends (true ∷ []) 4 7 5 (omega arith)

run-peak_example :
    ((gauge_of Queue.incoming (run 0 traffic (reset 0))).peak
      ≡ largest 0 Queue.incoming traffic (reset 0) 0)
    × ((gauge_of Queue.incoming (run 0 traffic (reset 0))).depth
        ≤ (gauge_of Queue.incoming (run 0 traffic (reset 0))).peak)
run-peak_example = run-peak 0 Queue.incoming traffic
