-- ===== src/Metrics/MetricsCollector/Examples.antt =====
-- Some calls, and the theorems on metrics/metrics_collector.cpp at them.
use datafeed_server.Prelude.{◌%◌, u64_mod, ◌≡◌, ◌↔◌, refl, true, false, List, [], ◌∷◌, none, some}
use datafeed_server.Metrics.LatencyTracker.WholeNumbers.{whole_numbers}
use datafeed_server.Metrics.SystemMonitor.{Readings}
use datafeed_server.Metrics.MetricsCollector.Calls.{Call}
use datafeed_server.Metrics.MetricsCollector.{MetricsCollector, run, init}
use datafeed_server.Metrics.MetricsCollector.Report.{get_snapshot}
use datafeed_server.Metrics.ThroughputTracker.{Counter}
use datafeed_server.Metrics.MetricsCollector.Amounts.{Quantity, value, total}
use datafeed_server.Metrics.MetricsCollector.Counting.{run-counts}
use datafeed_server.Metrics.MetricsCollector.Blocking.{tells, tells_after, get_snapshot-blocks}

abbrev calls : List (Call whole_numbers)
calls =
    Call.on_exchange_heartbeat "BINANCE" 1
    ∷ Call.reset 1
    ∷ Call.on_tick
    ∷ Call.on_parse_error
    ∷ Call.on_exchange_disconnected "BINANCE" 1
    ∷ Call.on_exchange_connected "JUPITER" 2 3 4
    ∷ Call.increment_incoming_queue
    ∷ []

abbrev readings : Readings
readings = record {
  process_time = 0;
  stat = none;
  statm = none;
  page_size = 4096;
  heap_usage = 0;
  threads = none;
}

calls_tell : tells whole_numbers calls ≡ true
unfolding tells_after
calls_tell = refl

-- `reset` forgets the heartbeat
calls_forget :
    tells whole_numbers (Call.on_exchange_heartbeat "BINANCE" 1 ∷ Call.reset 1 ∷ []) ≡ false
unfolding tells_after
calls_forget = refl

get_snapshot-blocks_example :
    (m : MetricsCollector whole_numbers) × (run whole_numbers calls (init whole_numbers 0) ≡ some m)
    × ((get_snapshot whole_numbers 5 5 6 readings (λ k. k) m ≡ none)
        ↔ (tells whole_numbers calls ≡ true))
get_snapshot-blocks_example = get_snapshot-blocks whole_numbers calls 0 5 5 6 readings (λ k. k)

ticks_and_errors :
    (total whole_numbers (Quantity.counted Counter.ticks) calls 0 ≡ 1)
    × (total whole_numbers Quantity.parse_failures calls 0 ≡ 1)
unfolding total
ticks_and_errors = (refl, refl)

run-counts_example :
    (m : MetricsCollector whole_numbers) × (run whole_numbers calls (init whole_numbers 0) ≡ some m)
    × ((k : Quantity) → value whole_numbers k m ≡ total whole_numbers k calls 0 % u64_mod)
run-counts_example = run-counts whole_numbers calls 0
