-- ===== src/Metrics/Running.antt =====
-- What class MetricAggregator (metrics/metric_aggregator.cpp) does alike for every metric: it counts, and its
-- reports divide sums, repeat the latest value, or go by the majority. The sums by themselves, for comparison.
pub mod Entries
pub mod Latencies
pub mod Exchanges
pub mod Extremes
pub mod Rates
pub mod Totals
pub mod System
pub mod Queues
pub mod Health
pub mod Sessions
pub mod Network
pub mod Database
use datafeed_server.Prelude.{ℕ, Bool, true, false, List, [], ◌∷◌, if◌then◌else◌, leb, add64, ◌&&◌}
use datafeed_server.Metrics.FeedHealth.{HealthStatus}
use datafeed_server.Metrics.LatencyTracker.{DoubleArithmetic}

-- `if (b) ++n;`
unfoldable pub count_if : Bool → ℕ → ℕ
count_if b n = if b then add64 n 1 else n

-- the labels of the `switch` over the status
unfoldable pub has_status : HealthStatus → HealthStatus → Bool
has_status HealthStatus.healthy HealthStatus.healthy = true
has_status HealthStatus.degraded HealthStatus.degraded = true
has_status HealthStatus.critical HealthStatus.critical = true
has_status _ _ = false

unfoldable pub majority : ℕ → ℕ → ℕ → HealthStatus
majority healthy_count degraded_count critical_count =
    if leb degraded_count healthy_count && leb critical_count healthy_count
    then HealthStatus.healthy
    else if leb critical_count degraded_count
    then HealthStatus.degraded
    else HealthStatus.critical

-- the sum of a number of each item, in `uint64_t`; and the last value; and how many items pass a test
module _ {A : Type 0} where
  unfoldable pub sum_count : (A → ℕ) → ℕ → List A → ℕ
  sum_count f n [] = n
  sum_count f n (a ∷ rest) = sum_count f (add64 n (f a)) rest

  unfoldable pub latest : (A → ℕ) → ℕ → List A → ℕ
  latest f n [] = n
  latest f n (a ∷ rest) = latest f (f a) rest

  unfoldable pub count_true : (A → Bool) → ℕ → List A → ℕ
  unfolding count_if
  count_true f n [] = n
  count_true f n (a ∷ rest) = count_true f (count_if (f a) n) rest

module _ (arithmetic : DoubleArithmetic) {A : Type 0} where
  open arithmetic use {Double, plus}

  unfoldable pub sum_double : (A → Double) → Double → List A → Double
  sum_double f x [] = x
  sum_double f x (a ∷ rest) = sum_double f (plus x (f a)) rest
