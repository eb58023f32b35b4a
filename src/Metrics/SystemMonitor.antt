-- ===== src/Metrics/SystemMonitor.antt =====
-- metrics/system_monitor.h and metrics/system_monitor.cpp, class SystemMonitor, as it is compiled for Linux. What
-- the system says of the process comes in as `Readings`. A time is what `steady_clock::now()` returns, in
-- nanoseconds. Where a time is subtracted from an earlier one, the source has a negative number and tests
-- for more than 0, and here it is 0.
pub mod Growth
mod Examples
use datafeed_server.Prelude.{
  ℕ, ◌-◌, ◌*◌, ◌%◌, ◌^◌, Bool, Option, none, some, if◌then◌else◌, ltb, ◌&&◌, add64, sub64, u64_mod,
}
use datafeed_server.Metrics.LatencyTracker.{DoubleArithmetic}
use datafeed_server.Metrics.Snapshot.{System}

pub record SystemMonitor (D : Type 0) : Type 0 where
  pub start_time : ℕ
  pub last_cpu_update : ℕ
  pub last_rss : ℕ
  pub cpu_usage_percent : D
  pub last_process_time : ℕ
  pub last_system_time : ℕ

-- the first line of /proc/stat
pub record CpuTimes : Type 0 where
  pub user : ℕ
  pub nice : ℕ
  pub system : ℕ
  pub idle : ℕ

-- /proc/self/statm, in pages
pub record Pages : Type 0 where
  pub size : ℕ
  pub resident : ℕ

pub record Readings : Type 0 where
  -- the sum of the times of `getrusage`, in microseconds
  pub process_time : ℕ
  pub stat : Option CpuTimes
  pub statm : Option Pages
  pub page_size : ℕ
  -- `mallinfo2().uordblks`
  pub heap_usage : ℕ
  -- the line "Threads:" of /proc/self/status
  pub threads : Option ℕ

unfoldable pub total_system_time : Option CpuTimes → ℕ
total_system_time none = 0
total_system_time (some t) = add64 (add64 (add64 t.user t.nice) t.system) t.idle

-- `*= sysconf(_SC_PAGESIZE)` in `uint64_t`
unfoldable pub in_bytes : ℕ → ℕ → ℕ
in_bytes pages page_size = (pages * page_size) % u64_mod

unfoldable pub raise_rss : ℕ → ℕ → ℕ
raise_rss current_rss last_rss = if ltb last_rss current_rss then current_rss else last_rss

module _ (arithmetic : DoubleArithmetic) where
  open arithmetic use {Double, zero_double, over, times, from_count, seconds, quotient}

  unfoldable pub init : ℕ → SystemMonitor Double
  init now = record {
    start_time = now;
    last_cpu_update = now;
    last_rss = 0;
    cpu_usage_percent = zero_double;
    last_process_time = 0;
    last_system_time = 0;
  }

  unfoldable pub cpu_usage : ℕ → ℕ → SystemMonitor Double → Double
  cpu_usage current_process_time system_time m =
      let process_time_diff = sub64 current_process_time m.last_process_time in
      let system_time_diff = sub64 system_time m.last_system_time in
      if ltb 0 m.last_process_time && ltb 0 m.last_system_time && ltb 0 system_time_diff
      then times (over (from_count process_time_diff) system_time_diff) (from_count 100)
      else m.cpu_usage_percent

  unfoldable pub update_cpu_usage : ℕ → Readings → SystemMonitor Double → SystemMonitor Double
  unfolding cpu_usage total_system_time
  update_cpu_usage now r m = if ltb (now - m.last_cpu_update) 100000000 then m else record m {
    cpu_usage_percent = cpu_usage r.process_time (total_system_time r.stat) m;
    last_process_time = r.process_time;
    last_system_time = total_system_time r.stat;
    last_cpu_update = now;
  }

  -- `static_cast<double>(current_rss - last_rss_) / elapsed_sec`, with the new `last_rss_`
  unfoldable pub growth_rate : ℕ → ℕ → SystemMonitor Double → Double
  growth_rate now current_rss m =
      let elapsed = now - m.last_cpu_update in
      if ltb 0 elapsed && ltb 0 m.last_rss
      then quotient (from_count (sub64 current_rss m.last_rss)) (seconds elapsed)
      else zero_double

  -- where /proc/self/statm cannot be read, the memory reads as 0
  unfoldable pub memory_metrics :
      ℕ
      → Option Pages
      → Readings
      → System Double
      → SystemMonitor Double
      → System Double × SystemMonitor Double
  unfolding in_bytes raise_rss growth_rate
  memory_metrics now none r metrics m = (metrics, m)
  memory_metrics now (some pages) r metrics m =
      let current_rss = in_bytes pages.resident r.page_size in
      let raised : SystemMonitor Double = record m {
        last_rss = raise_rss current_rss m.last_rss;
      } in
      (
        record metrics {
          memory_rss = current_rss;
          virtual_memory = in_bytes pages.size r.page_size;
          peak_rss = raised.last_rss;
          memory_growth_rate = growth_rate now current_rss raised;
          heap_usage = r.heap_usage;
        },
        raised,
      )

  unfoldable pub thread_count : Option ℕ → ℕ
  thread_count none = 0
  thread_count (some n) = n

  -- with what the clock returns here and in `updateCpuUsage`
  unfoldable pub get_system_metrics :
      ℕ → ℕ → Readings → SystemMonitor Double → System Double × SystemMonitor Double
  unfolding update_cpu_usage memory_metrics thread_count
  get_system_metrics now later r m =
      let updated = update_cpu_usage later r m in
      memory_metrics now r.statm r
        (record {
          cpu_usage_percent = updated.cpu_usage_percent;
          memory_rss = 0;
          peak_rss = 0;
          virtual_memory = 0;
          heap_usage = 0;
          memory_growth_rate = zero_double;
          thread_count = thread_count r.threads;
          uptime_seconds = seconds (now - m.start_time);
        })
        updated
