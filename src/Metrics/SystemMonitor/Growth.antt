-- ===== src/Metrics/SystemMonitor/Growth.antt =====
-- What metrics/system_monitor.cpp reports as the growth of memory.
use datafeed_server.Prelude.{
  ℕ, ◌-◌, ◌<◌, ◌≤◌, ◌≡◌, refl, ◌⊎◌, inl, inr, some, if◌then◌else◌, ltb, ◌&&◌, sub64, u64_mod,
  Bool-cases, arith,
}
use datafeed_server.Metrics.LatencyTracker.{DoubleArithmetic}
use datafeed_server.Metrics.SystemMonitor.{
  SystemMonitor, Readings, Pages, in_bytes, raise_rss, update_cpu_usage, growth_rate,
  memory_metrics, get_system_metrics,
}

module _ (arithmetic : DoubleArithmetic) where
  open arithmetic use {Double, zero_double, from_count, seconds, quotient}

  difference-raise :
      (current last : ℕ)
      → last < u64_mod
      → current < u64_mod
      → sub64 current (raise_rss current last)
        ≡ (if ltb current last then u64_mod - (last - current) else 0)
  unfolding raise_rss
  difference-raise current last h k = ground arith

  -- what the difference of the sizes comes to
  unfoldable pub reported_growth : ℕ → ℕ → ℕ
  reported_growth current last = if ltb current last then u64_mod - (last - current) else 0

  growth_rate-raised :
      (now current : ℕ) (m : SystemMonitor Double)
      → m.last_rss < u64_mod
      → current < u64_mod
      → (growth_rate arithmetic now current (record m { last_rss = raise_rss current m.last_rss })
          ≡ zero_double)
        ⊎ (growth_rate arithmetic now current (record m { last_rss = raise_rss current m.last_rss })
            ≡ quotient
                (from_count (reported_growth current m.last_rss))
                (seconds (now - m.last_cpu_update)))
  unfolding growth_rate reported_growth
  growth_rate-raised now current m h k =
      let last : ℕ = raise_rss current m.last_rss in
      elim (Bool-cases (ltb 0 (now - m.last_cpu_update) && ltb 0 last)) [
        | inl e ↦ inr (rw (e, difference-raise current m.last_rss h k) refl)
        | inr e ↦ inl (rw e refl)
      ]

  just_updated :
      (now current : ℕ) (m : SystemMonitor Double)
      → now ≤ m.last_cpu_update
      → growth_rate arithmetic now current m ≡ zero_double
  unfolding growth_rate
  just_updated now current m h = ground arith

  -- Where the memory can be read, its reported growth is never one: it is 0 whenever the report measures the
  -- processor too, and otherwise 0 or the quotient of 0, if the memory is not smaller than its largest size
  -- so far, or of 2 ^ 64 less what it is smaller by.
  pub memory_growth_rate-wraps :
      (now later : ℕ) (r : Readings) (pages : Pages) (m : SystemMonitor Double)
      → now ≤ later
      → r.statm ≡ some pages
      → m.last_rss < u64_mod
      → ((get_system_metrics arithmetic now later r m).0.memory_growth_rate ≡ zero_double)
        ⊎ ((later - m.last_cpu_update < 100000000)
            × ((get_system_metrics arithmetic now later r m).0.memory_growth_rate
                ≡ quotient
                    (from_count (reported_growth (in_bytes pages.resident r.page_size) m.last_rss))
                    (seconds (now - m.last_cpu_update))))
  unfolding get_system_metrics memory_metrics update_cpu_usage in_bytes
  memory_growth_rate-wraps now later r pages m h read small =
      let current : ℕ = in_bytes pages.resident r.page_size in
      elim (Bool-cases (ltb (later - m.last_cpu_update) 100000000)) [
        | inl e ↦
            rw (read, e)
              (elim (growth_rate-raised now current m small (omega arith)) [
                | inl z ↦ inl z
                | inr w ↦ inr (ground arith, w)
              ])
        | inr e ↦ inl (rw (read, e) (ground (arith, just_updated now current)))
      ]
