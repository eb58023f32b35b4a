-- ===== src/Metrics/Running/Latencies.antt =====
-- metrics/metric_aggregator.h and metrics/metric_aggregator.cpp: what class MetricAggregator keeps of the
-- latencies of each category, and what it reports.
use datafeed_server.Prelude.{
  ℕ, ◌≡◌, refl, ap, List, [], ◌∷◌, Option, none, some, ◌/◌, Bool, true, false, if◌then◌else◌, add64,
  ◌∙◌, lookup, nat_key,
}
use datafeed_server.Metrics.LatencyTracker.{DoubleArithmetic, least, greatest}
use datafeed_server.Metrics.Snapshot.{LatencyCategoryStats}
use datafeed_server.Metrics.Running.{sum_double, sum_count}
use datafeed_server.Metrics.Running.Entries.{
  continued, add_maps, values_of, lookup-add_maps, report_entries, lookup-report_entries,
}

-- `LatencyRunning`
pub record LatencyRunning (D : Type 0) : Type 0 where
  pub sum_avg : D
  pub sum_min : D
  pub sum_max : D
  pub sum_p50 : D
  pub sum_p95 : D
  pub sum_p99 : D
  pub sum_count : ℕ
  pub min_min : D
  pub max_max : D
  pub min_p50 : D
  pub max_p50 : D
  pub min_p95 : D
  pub max_p95 : D
  pub min_p99 : D
  pub max_p99 : D
  pub initialized : Bool

module _ (arithmetic : DoubleArithmetic) where
  open arithmetic use {Double, zero_double, plus, less, over}

  -- `std::min(a, b)` and `std::max(a, b)`
  unfoldable pub min_double : Double → Double → Double
  min_double a b = if less b a then b else a

  unfoldable pub max_double : Double → Double → Double
  max_double a b = if less a b then b else a

  unfoldable pub new_running : LatencyRunning Double
  new_running = record {
    sum_avg = zero_double;
    sum_min = zero_double;
    sum_max = zero_double;
    sum_p50 = zero_double;
    sum_p95 = zero_double;
    sum_p99 = zero_double;
    sum_count = 0;
    min_min = zero_double;
    max_max = zero_double;
    min_p50 = zero_double;
    max_p50 = zero_double;
    min_p95 = zero_double;
    max_p95 = zero_double;
    min_p99 = zero_double;
    max_p99 = zero_double;
    initialized = false;
  }

  unfoldable pub first_latency :
      LatencyCategoryStats Double → LatencyRunning Double → LatencyRunning Double
  first_latency stats r = record {
    sum_avg = stats.average;
    sum_min = stats.min;
    sum_max = stats.max;
    sum_p50 = stats.p50;
    sum_p95 = stats.p95;
    sum_p99 = stats.p99;
    sum_count = stats.count;
    min_min = stats.min;
    max_max = stats.max;
    min_p50 = stats.p50;
    max_p50 = stats.p50;
    min_p95 = stats.p95;
    max_p95 = stats.p95;
    min_p99 = stats.p99;
    max_p99 = stats.p99;
    initialized = true;
  }

  unfoldable pub more_latency :
      LatencyCategoryStats Double → LatencyRunning Double → LatencyRunning Double
  unfolding min_double max_double
  more_latency stats r = record r {
    sum_avg = plus r.sum_avg stats.average;
    sum_min = plus r.sum_min stats.min;
    sum_max = plus r.sum_max stats.max;
    sum_p50 = plus r.sum_p50 stats.p50;
    sum_p95 = plus r.sum_p95 stats.p95;
    sum_p99 = plus r.sum_p99 stats.p99;
    sum_count = add64 r.sum_count stats.count;
    min_min = min_double r.min_min stats.min;
    max_max = max_double r.max_max stats.max;
    min_p50 = min_double r.min_p50 stats.p50;
    max_p50 = max_double r.max_p50 stats.p50;
    min_p95 = min_double r.min_p95 stats.p95;
    max_p95 = max_double r.max_p95 stats.p95;
    min_p99 = min_double r.min_p99 stats.p99;
    max_p99 = max_double r.max_p99 stats.p99;
  }

  -- the body of the loop of `addSnapshot`
  unfoldable pub add_latency :
      LatencyCategoryStats Double → LatencyRunning Double → LatencyRunning Double
  unfolding first_latency more_latency
  add_latency stats r = if r.initialized then more_latency stats r else first_latency stats r

  -- that of the loop of `produceSummary`
  unfoldable pub report_latency : ℕ → LatencyRunning Double → LatencyCategoryStats Double
  report_latency count r = record {
    average = over r.sum_avg count;
    min = r.min_min;
    max = r.max_max;
    p50 = over r.sum_p50 count;
    p95 = over r.sum_p95 count;
    p99 = over r.sum_p99 count;
    count = r.sum_count / count;
  }

  lowest :
      (LatencyCategoryStats Double → Double) → Double → List (LatencyCategoryStats Double) → Double
  lowest f x [] = x
  lowest f x (stats ∷ rest) = lowest f (min_double x (f stats)) rest

  highest :
      (LatencyCategoryStats Double → Double) → Double → List (LatencyCategoryStats Double) → Double
  highest f x [] = x
  highest f x (stats ∷ rest) = highest f (max_double x (f stats)) rest

  -- The state after more statistics, field by field.
  continued-sums :
      (rest : List (LatencyCategoryStats Double)) (r : LatencyRunning Double)
      → continued add_latency new_running (some (record r { initialized = true })) rest
        ≡ some (record {
          sum_avg = sum_double arithmetic (λ s. s.average) r.sum_avg rest;
          sum_min = sum_double arithmetic (λ s. s.min) r.sum_min rest;
          sum_max = sum_double arithmetic (λ s. s.max) r.sum_max rest;
          sum_p50 = sum_double arithmetic (λ s. s.p50) r.sum_p50 rest;
          sum_p95 = sum_double arithmetic (λ s. s.p95) r.sum_p95 rest;
          sum_p99 = sum_double arithmetic (λ s. s.p99) r.sum_p99 rest;
          sum_count = sum_count (λ s. s.count) r.sum_count rest;
          min_min = lowest (λ s. s.min) r.min_min rest;
          max_max = highest (λ s. s.max) r.max_max rest;
          min_p50 = lowest (λ s. s.p50) r.min_p50 rest;
          max_p50 = highest (λ s. s.p50) r.max_p50 rest;
          min_p95 = lowest (λ s. s.p95) r.min_p95 rest;
          max_p95 = highest (λ s. s.p95) r.max_p95 rest;
          min_p99 = lowest (λ s. s.p99) r.min_p99 rest;
          max_p99 = highest (λ s. s.p99) r.max_p99 rest;
          initialized = true;
        })
  unfolding continued add_latency sum_double sum_count lowest highest
  continued-sums [] r = refl
  continued-sums (stats ∷ rest) r =
      continued-sums rest (add_latency stats (record r { initialized = true }))

  mins : List (LatencyCategoryStats Double) → List Double
  mins [] = []
  mins (stats ∷ rest) = stats.min ∷ mins rest

  maxs : List (LatencyCategoryStats Double) → List Double
  maxs [] = []
  maxs (stats ∷ rest) = stats.max ∷ maxs rest

  lowest-mins :
      (x : Double) (rest : List (LatencyCategoryStats Double))
      → lowest (λ s. s.min) x rest ≡ least arithmetic x (mins rest)
  unfolding lowest min_double least mins
  lowest-mins x [] = refl
  lowest-mins x (stats ∷ rest) = lowest-mins (min_double x stats.min) rest

  highest-maxs :
      (x : Double) (rest : List (LatencyCategoryStats Double))
      → highest (λ s. s.max) x rest ≡ greatest arithmetic x (maxs rest)
  unfolding highest max_double greatest maxs
  highest-maxs x [] = refl
  highest-maxs x (stats ∷ rest) = highest-maxs (max_double x stats.max) rest

  -- What a report on a category says, by the statistics of the snapshots that have the category.
  unfoldable pub latency_summary :
      ℕ → List (LatencyCategoryStats Double) → Option (LatencyCategoryStats Double)
  unfolding mins maxs
  latency_summary n [] = none
  latency_summary n (first ∷ rest) = some (record {
    average = over (sum_double arithmetic (λ s. s.average) first.average rest) n;
    min = least arithmetic first.min (mins rest);
    max = greatest arithmetic first.max (maxs rest);
    p50 = over (sum_double arithmetic (λ s. s.p50) first.p50 rest) n;
    p95 = over (sum_double arithmetic (λ s. s.p95) first.p95 rest) n;
    p99 = over (sum_double arithmetic (λ s. s.p99) first.p99 rest) n;
    count = sum_count (λ s. s.count) first.count rest / n;
  })

  reported : ℕ → Option (LatencyRunning Double) → Option (LatencyCategoryStats Double)
  reported n none = none
  reported n (some r) = some (report_latency n r)

  report_continued :
      (n : ℕ) (all : List (LatencyCategoryStats Double))
      → reported n (continued add_latency new_running none all) ≡ latency_summary n all
  unfolding continued latency_summary reported report_latency add_latency new_running
  report_continued n [] = refl
  report_continued n (first ∷ rest) =
      ap (reported n) (continued-sums rest (add_latency first new_running))
      ∙ ap some (λ i. record {
        average = over (sum_double arithmetic (λ s. s.average) first.average rest) n;
        min = lowest-mins first.min rest i;
        max = highest-maxs first.max rest i;
        p50 = over (sum_double arithmetic (λ s. s.p50) first.p50 rest) n;
        p95 = over (sum_double arithmetic (λ s. s.p95) first.p95 rest) n;
        p99 = over (sum_double arithmetic (λ s. s.p99) first.p99 rest) n;
        count = sum_count (λ s. s.count) first.count rest / n;
      })

  reported_elim :
      (n : ℕ) (o : Option (LatencyRunning Double))
      → (elim o [ none ↦ none | some r ↦ some (report_latency n r) ]) ≡ reported n o
  unfolding reported
  reported_elim n none = refl
  reported_elim n (some r) = refl

  pub lookup_latency :
      (n k : ℕ) (maps : List (List (ℕ × LatencyCategoryStats Double)))
      → lookup k (report_entries (report_latency n) (add_maps add_latency new_running maps []))
        ≡ latency_summary n (values_of k maps)
  unfolding reported lookup
  lookup_latency n k maps =
      lookup-report_entries (report_latency n) k (add_maps add_latency new_running maps [])
      ∙ reported_elim n (lookup k (add_maps add_latency new_running maps []))
      ∙ ap (reported n) (lookup-add_maps add_latency new_running k maps [])
      ∙ report_continued n (values_of k maps)
