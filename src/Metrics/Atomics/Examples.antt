-- ===== src/Metrics/Atomics/Examples.antt =====
-- Two threads that decrement a counter of 1 at once.
use datafeed_server.Prelude.{◌-◌, ◌≡◌, arith, u64_mod}
use datafeed_server.Metrics.Atomics.{drop_one}
use datafeed_server.Metrics.Atomics.Races.{after_both, concurrent_decrements-wrap}

concurrent_decrements-wrap_example :
    (drop_one 1 ≡ 0) × (after_both 1 1 ≡ 0) × (after_both 2 1 ≡ u64_mod - 1)
concurrent_decrements-wrap_example = concurrent_decrements-wrap 2 1 (omega arith) (omega arith)
