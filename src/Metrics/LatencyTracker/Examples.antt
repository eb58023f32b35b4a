-- ===== src/Metrics/LatencyTracker/Examples.antt =====
-- Latencies in whole_numbers milliseconds, and the theorems of metrics/latency_tracker.cpp at them.
use mathlib.Core.List.{Memᴰ}
use datafeed_server.Prelude.{ℕ, ◌≡◌, refl, true, false, List, [], ◌∷◌, arith, ltb}
use datafeed_server.Metrics.RingBuffer.Contents.{keep_last}
use datafeed_server.Metrics.LatencyTracker.WholeNumbers.{whole_numbers}
use datafeed_server.Metrics.LatencyTracker.{Call, run, init, stats_of}
use datafeed_server.Metrics.LatencyTracker.History.{measured, samples_of, run-samples}
use datafeed_server.Metrics.LatencyTracker.Extremes.{IsFirst, stats_of-extremes}

abbrev calls : List (Call whole_numbers)
calls =
    Call.ends 9 1
    ∷ Call.clears 1
    ∷ Call.ends 4 1
    ∷ Call.ends 7 0
    ∷ Call.ends 5 1
    ∷ Call.ends 6 1
    ∷ []

measured-calls : measured whole_numbers 1 calls [] ≡ 4 ∷ 5 ∷ 6 ∷ []
unfolding measured
measured-calls = refl

run-samples_example :
    samples_of whole_numbers 2 1 (run whole_numbers calls (init whole_numbers 2))
    ≡ keep_last 2 (measured whole_numbers 1 calls [])
run-samples_example =
    run-samples whole_numbers 2 calls 1 (omega arith) (omega arith) (omega arith) (omega arith)

ltb-irreflexive : (a : ℕ) → ltb a a ≡ false
ltb-irreflexive a = ground arith

ltb-transitive : (a b c : ℕ) → ltb a b ≡ true → ltb b c ≡ true → ltb a c ≡ true
ltb-transitive a b c h k = ground arith

stats_of-extremes_example :
    Memᴰ (stats_of whole_numbers 11 2 (5 ∷ 6 ∷ [])).min (5 ∷ 6 ∷ [])
    × IsFirst ltb (stats_of whole_numbers 11 2 (5 ∷ 6 ∷ [])).min (5 ∷ 6 ∷ [])
    × Memᴰ (stats_of whole_numbers 11 2 (5 ∷ 6 ∷ [])).max (5 ∷ 6 ∷ [])
    × IsFirst (λ a b. ltb b a) (stats_of whole_numbers 11 2 (5 ∷ 6 ∷ [])).max (5 ∷ 6 ∷ [])
stats_of-extremes_example =
    stats_of-extremes whole_numbers ltb-irreflexive ltb-transitive 11 2 5 (6 ∷ [])
