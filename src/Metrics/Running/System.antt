-- ===== src/Metrics/Running/System.antt =====
-- metrics/metric_aggregator.h and metrics/metric_aggregator.cpp: what class MetricAggregator keeps of the
-- system of the snapshots, what a snapshot adds, and what it reports.
use datafeed_server.Prelude.{
  Bool, List, [], add64, ap, false, if◌then◌else◌, refl, true, ℕ, ◌%◌, ◌/◌, ◌^◌, ◌∷◌, ◌≡◌,
}
use datafeed_server.Metrics.LatencyTracker.{DoubleArithmetic}
use datafeed_server.Metrics.Snapshot.{System}
use datafeed_server.Metrics.Running.{sum_double, sum_count}

pub record SystemRunning (D : Type 0) : Type 0 where
  pub sum_cpu : D
  pub sum_mem_rss : ℕ
  pub sum_peak_rss : ℕ
  pub sum_vm : ℕ
  pub sum_heap : ℕ
  pub sum_mem_growth : D
  pub sum_threads : ℕ
  pub sum_uptime : D
  pub initialized : Bool

module _ (arithmetic : DoubleArithmetic) where
  open arithmetic use {Double, zero_double, plus, over}

  -- the part of `reset`, also that of a new aggregator
  unfoldable pub reset : SystemRunning Double
  reset = record {
    sum_cpu = zero_double;
    sum_mem_rss = 0;
    sum_peak_rss = 0;
    sum_vm = 0;
    sum_heap = 0;
    sum_mem_growth = zero_double;
    sum_threads = 0;
    sum_uptime = zero_double;
    initialized = false;
  }

  -- the branch `if (!system_initialized_)`, and the other
  unfoldable pub first_system : System Double → SystemRunning Double → SystemRunning Double
  first_system s r = record r {
    sum_cpu = s.cpu_usage_percent;
    sum_mem_rss = s.memory_rss;
    sum_peak_rss = s.peak_rss;
    sum_vm = s.virtual_memory;
    sum_heap = s.heap_usage;
    sum_mem_growth = s.memory_growth_rate;
    sum_threads = s.thread_count;
    sum_uptime = s.uptime_seconds;
    initialized = true;
  }

  unfoldable pub more_system : System Double → SystemRunning Double → SystemRunning Double
  more_system s r = record r {
    sum_cpu = plus r.sum_cpu s.cpu_usage_percent;
    sum_mem_rss = add64 r.sum_mem_rss s.memory_rss;
    sum_peak_rss = add64 r.sum_peak_rss s.peak_rss;
    sum_vm = add64 r.sum_vm s.virtual_memory;
    sum_heap = add64 r.sum_heap s.heap_usage;
    sum_mem_growth = plus r.sum_mem_growth s.memory_growth_rate;
    sum_threads = add64 r.sum_threads s.thread_count;
    sum_uptime = plus r.sum_uptime s.uptime_seconds;
  }

  -- the part of `addSnapshot`
  unfoldable pub add_system : System Double → SystemRunning Double → SystemRunning Double
  unfolding first_system more_system
  add_system s r = if r.initialized then more_system s r else first_system s r

  unfoldable pub report_system : ℕ → SystemRunning Double → System Double
  report_system count r = record {
    cpu_usage_percent = over r.sum_cpu count;
    memory_rss = r.sum_mem_rss / count;
    peak_rss = r.sum_peak_rss / count;
    virtual_memory = r.sum_vm / count;
    heap_usage = r.sum_heap / count;
    memory_growth_rate = over r.sum_mem_growth count;
    thread_count = (r.sum_threads / count) % 2 ^ 32;
    uptime_seconds = over r.sum_uptime count;
  }

  unfoldable pub add_all : List (System Double) → SystemRunning Double → SystemRunning Double
  add_all [] r = r
  add_all (s ∷ ss) r = add_all ss (add_system s r)

  -- The state after more snapshots, field by field.
  add_all-sums :
      (ss : List (System Double)) (r : SystemRunning Double)
      → add_all ss (record r { initialized = true }) ≡ record {
        sum_cpu = sum_double arithmetic (λ s. s.cpu_usage_percent) r.sum_cpu ss;
        sum_mem_rss = sum_count (λ s. s.memory_rss) r.sum_mem_rss ss;
        sum_peak_rss = sum_count (λ s. s.peak_rss) r.sum_peak_rss ss;
        sum_vm = sum_count (λ s. s.virtual_memory) r.sum_vm ss;
        sum_heap = sum_count (λ s. s.heap_usage) r.sum_heap ss;
        sum_mem_growth = sum_double arithmetic (λ s. s.memory_growth_rate) r.sum_mem_growth ss;
        sum_threads = sum_count (λ s. s.thread_count) r.sum_threads ss;
        sum_uptime = sum_double arithmetic (λ s. s.uptime_seconds) r.sum_uptime ss;
        initialized = true;
      }
  unfolding add_all add_system sum_count sum_double
  add_all-sums [] r = refl
  add_all-sums (s ∷ ss) r = add_all-sums ss (add_system s (record r { initialized = true }))

  -- What a report on a first snapshot and others says, by the snapshots themselves.
  unfoldable pub summary : ℕ → System Double → List (System Double) → System Double
  summary n first rest = record {
    cpu_usage_percent =
        over (sum_double arithmetic (λ s. s.cpu_usage_percent) first.cpu_usage_percent rest) n;
    memory_rss = sum_count (λ s. s.memory_rss) first.memory_rss rest / n;
    peak_rss = sum_count (λ s. s.peak_rss) first.peak_rss rest / n;
    virtual_memory = sum_count (λ s. s.virtual_memory) first.virtual_memory rest / n;
    heap_usage = sum_count (λ s. s.heap_usage) first.heap_usage rest / n;
    memory_growth_rate =
        over (sum_double arithmetic (λ s. s.memory_growth_rate) first.memory_growth_rate rest) n;
    thread_count = (sum_count (λ s. s.thread_count) first.thread_count rest / n) % 2 ^ 32;
    uptime_seconds =
        over (sum_double arithmetic (λ s. s.uptime_seconds) first.uptime_seconds rest) n;
  }

  pub report-add_all :
      (n : ℕ) (first : System Double) (rest : List (System Double))
      → report_system n (add_all (first ∷ rest) reset) ≡ summary n first rest
  unfolding report_system add_all add_system reset summary sum_count sum_double
  report-add_all n first rest = ap (report_system n) (add_all-sums rest (add_system first reset))
