-- ===== src/Metrics/LatencyTracker.antt =====
-- metrics/latency_tracker.h and metrics/latency_tracker.cpp, class LatencyTracker. Each method holds the
-- mutex for its whole body. A category is its number, 0 for EXCHANGE to 7 for GENERAL. The loop that copies
-- the samples of a window is that of `forEach` in metrics/ring_buffer.h, word for word. The clock is left out.
pub mod WholeNumbers
pub mod Samples
pub mod History
pub mod Extremes
mod Examples
use datafeed_server.Prelude.{
  ℕ, zero, suc, ◌%◌, Bool, true, false, List, [], ◌∷◌, Option, none, some, if◌then◌else◌, ltb, eqb,
  add64, sub64, get_or, set, replicate, lookup, insert, nat_key, length,
}
use datafeed_server.Metrics.RingBuffer.{visit}

-- The arithmetic of `double`; nothing is assumed of it here.
pub record DoubleArithmetic : Type 1 where
  pub Double : Type 0
  pub zero_double : Double
  pub plus : Double → Double → Double
  pub minus : Double → Double → Double
  pub less : Double → Double → Bool
  -- the quotient by an integer
  pub over : Double → ℕ → Double
  pub times : Double → Double → Double
  -- `static_cast<double>(n)`, `std::floor` and `std::ceil` cast to `size_t`
  pub from_count : ℕ → Double
  pub floor : Double → ℕ
  pub ceil : Double → ℕ
  -- `duration<double>` of a number of nanoseconds
  pub seconds : ℕ → Double
  pub quotient : Double → Double → Double
  -- 0.5, 0.95 and 0.99
  pub half : Double
  pub ninety_five : Double
  pub ninety_nine : Double

module _ (arithmetic : DoubleArithmetic) where
  open arithmetic use {
    Double, zero_double, plus, minus, less, over, times, from_count, floor, ceil, half, ninety_five,
    ninety_nine,
  }

  pub record LatencyWindow : Type 0 where
    pub latencies : List Double
    pub head : ℕ
    pub total_count : ℕ
    pub sum_latency : Double

  pub record LatencyTracker : Type 0 where
    pub window_size : ℕ
    pub latency_windows : List (ℕ × LatencyWindow)

  -- the constructor of LatencyWindow, and what `clear` makes of one
  unfoldable pub new_window : ℕ → LatencyWindow
  new_window window_size = record {
    latencies = replicate window_size zero_double;
    head = 0;
    total_count = 0;
    sum_latency = zero_double;
  }

  unfoldable pub init : ℕ → LatencyTracker
  init window_size = record {
    window_size = window_size;
    latency_windows =
        (0, new_window window_size)
        ∷ (1, new_window window_size)
        ∷ (2, new_window window_size)
        ∷ (3, new_window window_size)
        ∷ (4, new_window window_size)
        ∷ (5, new_window window_size)
        ∷ (6, new_window window_size)
        ∷ (7, new_window window_size)
        ∷ [];
  }

  -- the part of `endLatencyMeasurement` on a window
  unfoldable pub record_latency : ℕ → Double → LatencyWindow → LatencyWindow
  record_latency window_size latency_ms w =
      let old_val = get_or w.latencies w.head zero_double in
      let total_count = add64 w.total_count 1 in
      record {
        latencies = set w.latencies w.head latency_ms;
        head = add64 w.head 1 % window_size;
        total_count = total_count;
        sum_latency =
            if ltb window_size total_count
            then plus w.sum_latency (minus latency_ms old_val)
            else plus w.sum_latency latency_ms;
      }

  -- with the latency of the measurement
  unfoldable pub end_latency_measurement : Double → ℕ → LatencyTracker → LatencyTracker
  end_latency_measurement latency_ms category t = elim (lookup category t.latency_windows) [
    | none ↦ t
    | some w ↦ record t {
      latency_windows =
          insert category (record_latency t.window_size latency_ms w) t.latency_windows;
    }
  ]

  -- `std::fill` and the assignments
  unfoldable pub clear_window : LatencyWindow → LatencyWindow
  clear_window w = record {
    latencies = replicate (length w.latencies) zero_double;
    head = 0;
    total_count = 0;
    sum_latency = zero_double;
  }

  unfoldable pub clear : ℕ → LatencyTracker → LatencyTracker
  clear category t = elim (lookup category t.latency_windows) [
    | none ↦ t
    | some w ↦ record t { latency_windows = insert category (clear_window w) t.latency_windows }
  ]

  unfoldable pub clear_each : List (ℕ × LatencyWindow) → List (ℕ × LatencyWindow)
  clear_each [] = []
  clear_each ((category, w) ∷ rest) = (category, clear_window w) ∷ clear_each rest

  unfoldable pub clear_all : LatencyTracker → LatencyTracker
  clear_all t = record t { latency_windows = clear_each t.latency_windows }

  unfoldable pub valid_count : ℕ → ℕ → ℕ
  valid_count window_size total_count =
      if ltb window_size total_count then window_size else total_count

  unfoldable pub samples : ℕ → LatencyWindow → List Double
  samples window_size w =
      let valid = valid_count window_size w.total_count in
      let start = sub64 (add64 w.head window_size) valid % window_size in
      visit window_size zero_double w.latencies start 0 valid

  -- the loop over the samples, for the least and for the greatest
  unfoldable pub least : Double → List Double → Double
  least min_val [] = min_val
  least min_val (val ∷ rest) = least (if less val min_val then val else min_val) rest

  unfoldable pub greatest : Double → List Double → Double
  greatest max_val [] = max_val
  greatest max_val (val ∷ rest) = greatest (if less max_val val then val else max_val) rest

  -- `std::sort`
  unfoldable pub insert_sorted : Double → List Double → List Double
  insert_sorted x [] = x ∷ []
  insert_sorted x (y ∷ ys) = if less y x then y ∷ insert_sorted x ys else x ∷ y ∷ ys

  unfoldable pub sort : List Double → List Double
  unfolding insert_sorted
  sort [] = []
  sort (x ∷ xs) = insert_sorted x (sort xs)

  -- the lambda, on sorted samples
  unfoldable pub percentile : List Double → Double → Double
  percentile [] p = zero_double
  percentile (first ∷ rest) p =
      let sorted = first ∷ rest in
      let index = times p (minus (from_count (length sorted)) (from_count 1)) in
      let lower = floor index in
      let upper = ceil index in
      let fraction = minus index (from_count lower) in
      let below = get_or sorted lower zero_double in
      if eqb lower upper
      then below
      else plus below (times fraction (minus (get_or sorted upper zero_double) below))

  pub record LatencyStats : Type 0 where
    pub average : Double
    pub min : Double
    pub max : Double
    pub p50 : Double
    pub p95 : Double
    pub p99 : Double
    pub count : ℕ

  unfoldable pub no_stats : LatencyStats
  no_stats = record {
    average = zero_double;
    min = zero_double;
    max = zero_double;
    p50 = zero_double;
    p95 = zero_double;
    p99 = zero_double;
    count = 0;
  }

  unfoldable pub stats_of : Double → ℕ → List Double → LatencyStats
  stats_of sum valid [] = no_stats
  stats_of sum valid (first ∷ rest) = record {
    average = over sum valid;
    min = least first (first ∷ rest);
    max = greatest first (first ∷ rest);
    p50 = percentile (sort (first ∷ rest)) half;
    p95 = percentile (sort (first ∷ rest)) ninety_five;
    p99 = percentile (sort (first ∷ rest)) ninety_nine;
    count = valid;
  }

  unfoldable pub get_latency_stats : ℕ → LatencyTracker → LatencyStats
  get_latency_stats category t = elim (lookup category t.latency_windows) [
    | none ↦ no_stats
    | some w ↦
        stats_of w.sum_latency (valid_count t.window_size w.total_count) (samples t.window_size w)
  ]

  -- the loop of `getAllLatencyStats`
  unfoldable pub collect_stats :
      LatencyTracker → List (ℕ × LatencyWindow) → List (ℕ × LatencyStats) → List (ℕ × LatencyStats)
  unfolding get_latency_stats
  collect_stats t [] all_stats = all_stats
  collect_stats t ((category, w) ∷ rest) all_stats =
      collect_stats t rest (insert category (get_latency_stats category t) all_stats)

  unfoldable pub get_all_latency_stats : LatencyTracker → List (ℕ × LatencyStats)
  unfolding collect_stats
  get_all_latency_stats t = collect_stats t t.latency_windows []

  -- the calls of the tracker that change it
  pub data Call : Type 0 where
    ends : Double → ℕ → Call
    clears : ℕ → Call
    clears_all : Call

  unfoldable pub step : Call → LatencyTracker → LatencyTracker
  step (Call.ends x category) t = end_latency_measurement x category t
  step (Call.clears category) t = clear category t
  step Call.clears_all t = clear_all t

  unfoldable pub run : List Call → LatencyTracker → LatencyTracker
  run [] t = t
  run (c ∷ cs) t = run cs (step c t)
