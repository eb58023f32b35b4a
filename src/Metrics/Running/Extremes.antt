-- ===== src/Metrics/Running/Extremes.antt =====
-- metrics/metric_aggregator.h and metrics/metric_aggregator.cpp: the minima and maxima that class
-- MetricAggregator keeps of the rates, of the processor and of the memory. No report shows them. Two rates
-- share a flag where the source's lambda is called with the same one twice.
use datafeed_server.Prelude.{ℕ, Bool, true, false, if◌then◌else◌, ltb}
use datafeed_server.Metrics.LatencyTracker.{DoubleArithmetic}
use datafeed_server.Metrics.Snapshot.{Rates, System}
use datafeed_server.Metrics.Running.Latencies.{min_double, max_double}

-- `min_..._` and `max_..._`
pub record Extent (D : Type 0) : Type 0 where
  pub low : D
  pub high : D

pub record Extremes (D : Type 0) : Type 0 where
  pub messages_recv : Extent D
  pub messages_sent : Extent D
  pub bytes_recv : Extent D
  pub bytes_sent : Extent D
  pub packets_recv : Extent D
  pub packets_sent : Extent D
  pub ticks : Extent D
  pub trades : Extent D
  pub ob_updates : Extent D
  pub subs : Extent D
  pub broadcasts : Extent D
  pub db_writes : Extent D
  pub db_reads : Extent D
  pub rates_messages_initialized : Bool
  pub rates_bytes_initialized : Bool
  pub rates_packets_initialized : Bool
  pub rates_ticks_initialized : Bool
  pub rates_trades_initialized : Bool
  pub rates_ob_initialized : Bool
  pub rates_subs_initialized : Bool
  pub rates_broadcasts_initialized : Bool
  pub rates_db_writes_initialized : Bool
  pub rates_db_reads_initialized : Bool
  pub cpu : Extent D
  pub mem_rss : Extent ℕ

abbrev pub no_extent : {D : Type 0} → D → Extent D
no_extent nought = record { low = nought; high = nought }

module _ (arithmetic : DoubleArithmetic) where
  open arithmetic use {Double, zero_double}

  unfoldable pub new_extremes : Extremes Double
  new_extremes = record {
    messages_recv = no_extent zero_double;
    messages_sent = no_extent zero_double;
    bytes_recv = no_extent zero_double;
    bytes_sent = no_extent zero_double;
    packets_recv = no_extent zero_double;
    packets_sent = no_extent zero_double;
    ticks = no_extent zero_double;
    trades = no_extent zero_double;
    ob_updates = no_extent zero_double;
    subs = no_extent zero_double;
    broadcasts = no_extent zero_double;
    db_writes = no_extent zero_double;
    db_reads = no_extent zero_double;
    rates_messages_initialized = false;
    rates_bytes_initialized = false;
    rates_packets_initialized = false;
    rates_ticks_initialized = false;
    rates_trades_initialized = false;
    rates_ob_initialized = false;
    rates_subs_initialized = false;
    rates_broadcasts_initialized = false;
    rates_db_writes_initialized = false;
    rates_db_reads_initialized = false;
    cpu = no_extent zero_double;
    mem_rss = no_extent 0;
  }

  -- the minimum and the maximum in the lambda `accum_rate`, with the flag
  unfoldable pub accum_rate : Double → Bool → Extent Double → Extent Double
  unfolding min_double max_double
  accum_rate val initialized extent =
      if initialized
      then record {
        low = min_double arithmetic extent.low val;
        high = max_double arithmetic extent.high val;
      }
      else record { low = val; high = val }

  -- in `addSnapshot`, with `system_initialized_`
  unfoldable pub add_cpu : Double → Bool → Extent Double → Extent Double
  unfolding min_double max_double
  add_cpu val initialized extent =
      if initialized
      then record {
        low = min_double arithmetic extent.low val;
        high = max_double arithmetic extent.high val;
      }
      else record { low = val; high = val }

  unfoldable pub add_mem_rss : ℕ → Bool → Extent ℕ → Extent ℕ
  add_mem_rss val initialized extent =
      if initialized
      then record {
        low = if ltb val extent.low then val else extent.low;
        high = if ltb extent.high val then val else extent.high;
      }
      else record { low = val; high = val }

  -- the calls of `accum_rate`, in order: a flag is true from its first call on
  unfoldable pub add_extremes :
      Rates Double → System Double → Bool → Extremes Double → Extremes Double
  unfolding accum_rate add_cpu add_mem_rss
  add_extremes rates system system_initialized x = record {
    messages_recv =
        accum_rate rates.messages_received_per_sec x.rates_messages_initialized x.messages_recv;
    messages_sent = accum_rate rates.messages_sent_per_sec true x.messages_sent;
    bytes_recv = accum_rate rates.bytes_received_per_sec x.rates_bytes_initialized x.bytes_recv;
    bytes_sent = accum_rate rates.bytes_sent_per_sec true x.bytes_sent;
    packets_recv =
        accum_rate rates.packets_received_per_sec x.rates_packets_initialized x.packets_recv;
    packets_sent = accum_rate rates.packets_sent_per_sec true x.packets_sent;
    ticks = accum_rate rates.ticks_per_sec x.rates_ticks_initialized x.ticks;
    trades = accum_rate rates.trades_per_sec x.rates_trades_initialized x.trades;
    ob_updates = accum_rate rates.orderbook_updates_per_sec x.rates_ob_initialized x.ob_updates;
    subs = accum_rate rates.subscriptions_per_sec x.rates_subs_initialized x.subs;
    broadcasts = accum_rate rates.broadcasts_per_sec x.rates_broadcasts_initialized x.broadcasts;
    db_writes = accum_rate rates.database_writes_per_sec x.rates_db_writes_initialized x.db_writes;
    db_reads = accum_rate rates.database_reads_per_sec x.rates_db_reads_initialized x.db_reads;
    rates_messages_initialized = true;
    rates_bytes_initialized = true;
    rates_packets_initialized = true;
    rates_ticks_initialized = true;
    rates_trades_initialized = true;
    rates_ob_initialized = true;
    rates_subs_initialized = true;
    rates_broadcasts_initialized = true;
    rates_db_writes_initialized = true;
    rates_db_reads_initialized = true;
    cpu = add_cpu system.cpu_usage_percent system_initialized x.cpu;
    mem_rss = add_mem_rss system.memory_rss system_initialized x.mem_rss;
  }

  -- the part of `reset`: the flags and the processor's
  unfoldable pub reset_extremes : Extremes Double → Extremes Double
  reset_extremes x = record x {
    rates_messages_initialized = false;
    rates_bytes_initialized = false;
    rates_packets_initialized = false;
    rates_ticks_initialized = false;
    rates_trades_initialized = false;
    rates_ob_initialized = false;
    rates_subs_initialized = false;
    rates_broadcasts_initialized = false;
    rates_db_writes_initialized = false;
    rates_db_reads_initialized = false;
    cpu = no_extent zero_double;
  }
