-- ===== src/Metrics/SystemMonitor/Examples.antt =====
-- A process that shrinks from ten pages to five, and the theorem on metrics/system_monitor.cpp at it.
use datafeed_server.Prelude.{ℕ, ◌-◌, ◌<◌, ◌≡◌, refl, ◌⊎◌, none, some, arith}
use datafeed_server.Metrics.LatencyTracker.WholeNumbers.{whole_numbers}
use datafeed_server.Metrics.SystemMonitor.{
  SystemMonitor, Readings, Pages, get_system_metrics, in_bytes,
}
use datafeed_server.Metrics.SystemMonitor.Growth.{reported_growth, memory_growth_rate-wraps}

abbrev monitor : SystemMonitor ℕ
monitor = record {
  start_time = 0;
  last_cpu_update = 1000000000;
  last_rss = 40960;
  cpu_usage_percent = 3;
  last_process_time = 0;
  last_system_time = 0;
}

abbrev five_pages : Pages
five_pages = record { size = 20; resident = 5 }

abbrev readings : Readings
readings = record {
  process_time = 7;
  stat = none;
  statm = some five_pages;
  page_size = 4096;
  heap_usage = 100;
  threads = some 4;
}

memory_growth_rate-wraps_example :
    ((get_system_metrics whole_numbers 1010000000 1010000001 readings monitor).0.memory_growth_rate
      ≡ 0)
    ⊎ ((1010000001 - 1000000000 < 100000000)
        × ((get_system_metrics whole_numbers 1010000000 1010000001 readings
              monitor).0.memory_growth_rate
            ≡ whole_numbers.quotient
                (whole_numbers.from_count (reported_growth whole_numbers (in_bytes 5 4096) 40960))
                (whole_numbers.seconds (1010000000 - 1000000000))))
memory_growth_rate-wraps_example =
    memory_growth_rate-wraps whole_numbers 1010000000 1010000001 readings five_pages monitor
      (omega arith) refl (omega arith)

growth_of_shrinking : reported_growth whole_numbers 20480 40960 ≡ 18446744073709531136
unfolding reported_growth
growth_of_shrinking = refl
