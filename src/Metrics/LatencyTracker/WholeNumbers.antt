-- ===== src/Metrics/LatencyTracker/WholeNumbers.antt =====
-- Whole numbers in place of `double`, for the examples: quotients are rounded down.
use datafeed_server.Prelude.{ℕ, ◌+◌, ◌-◌, ◌*◌, ◌/◌, ltb}
use datafeed_server.Metrics.LatencyTracker.{DoubleArithmetic}

abbrev pub whole_numbers : DoubleArithmetic
whole_numbers = record {
  Double = ℕ;
  zero_double = 0;
  plus = λ a b. a + b;
  minus = λ a b. a - b;
  less = ltb;
  over = λ a n. a / n;
  times = λ a b. a * b;
  from_count = λ n. n;
  floor = λ a. a;
  ceil = λ a. a;
  seconds = λ n. n / 1000000000;
  quotient = λ a b. a / b;
  half = 0;
  ninety_five = 1;
  ninety_nine = 1;
}
