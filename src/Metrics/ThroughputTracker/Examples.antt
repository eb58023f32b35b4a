-- ===== src/Metrics/ThroughputTracker/Examples.antt =====
-- A counter that wraps between two reports of metrics/throughput_tracker.cpp.
use datafeed_server.Prelude.{◌%◌, ◌≤◌, ◌≡◌, refl, List, [], ◌∷◌, arith, u64_mod}
use datafeed_server.Metrics.ThroughputTracker.{
  Counter, ThroughputTracker, Call, run, index, get_and_update_stats,
}
use datafeed_server.Metrics.ThroughputTracker.Differences.{
  added, amount, no_reset, differences-between, one_if,
}

abbrev nearly_full : ThroughputTracker
nearly_full = record { current = λ k. 18446744073709551615; last = λ k. 0; last_update_time = 0 }

abbrev traffic : List Call
traffic = Call.message_received 512 4 ∷ Call.tick ∷ Call.message_received 100 0 ∷ []

bytes_of_traffic : added Counter.bytes_received traffic ≡ 612
unfolding added amount index one_if
bytes_of_traffic = refl

differences-between_example :
    ((get_and_update_stats 9 (run traffic (get_and_update_stats 5 nearly_full).1)).0.differences
        Counter.bytes_received
      ≡ added Counter.bytes_received traffic % u64_mod)
    × (1 ≤ (get_and_update_stats 9 (run traffic (get_and_update_stats 5 nearly_full).1)).0.elapsed)
unfolding no_reset
differences-between_example =
    differences-between Counter.bytes_received traffic nearly_full 5 9 refl (omega arith)
