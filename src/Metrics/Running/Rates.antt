-- ===== src/Metrics/Running/Rates.antt =====
-- metrics/metric_aggregator.h and metrics/metric_aggregator.cpp: what class MetricAggregator keeps of the
-- rates of the snapshots, what a snapshot adds, and what it reports.
use datafeed_server.Prelude.{List, [], ap, refl, ℕ, ◌∷◌, ◌≡◌}
use datafeed_server.Metrics.LatencyTracker.{DoubleArithmetic}
use datafeed_server.Metrics.Snapshot.{Rates}
use datafeed_server.Metrics.Running.{sum_double}

pub record RatesRunning (D : Type 0) : Type 0 where
  pub sum_messages_recv : D
  pub sum_messages_sent : D
  pub sum_bytes_recv : D
  pub sum_bytes_sent : D
  pub sum_packets_recv : D
  pub sum_packets_sent : D
  pub sum_ticks : D
  pub sum_trades : D
  pub sum_ob_updates : D
  pub sum_subs : D
  pub sum_broadcasts : D
  pub sum_db_writes : D
  pub sum_db_reads : D

module _ (arithmetic : DoubleArithmetic) where
  open arithmetic use {Double, zero_double, plus, over}

  -- the part of `reset`, also that of a new aggregator
  unfoldable pub reset : RatesRunning Double
  reset = record {
    sum_messages_recv = zero_double;
    sum_messages_sent = zero_double;
    sum_bytes_recv = zero_double;
    sum_bytes_sent = zero_double;
    sum_packets_recv = zero_double;
    sum_packets_sent = zero_double;
    sum_ticks = zero_double;
    sum_trades = zero_double;
    sum_ob_updates = zero_double;
    sum_subs = zero_double;
    sum_broadcasts = zero_double;
    sum_db_writes = zero_double;
    sum_db_reads = zero_double;
  }

  -- the part of `addSnapshot`
  unfoldable pub add_rates : Rates Double → RatesRunning Double → RatesRunning Double
  add_rates s r = record {
    sum_messages_recv = plus r.sum_messages_recv s.messages_received_per_sec;
    sum_messages_sent = plus r.sum_messages_sent s.messages_sent_per_sec;
    sum_bytes_recv = plus r.sum_bytes_recv s.bytes_received_per_sec;
    sum_bytes_sent = plus r.sum_bytes_sent s.bytes_sent_per_sec;
    sum_packets_recv = plus r.sum_packets_recv s.packets_received_per_sec;
    sum_packets_sent = plus r.sum_packets_sent s.packets_sent_per_sec;
    sum_ticks = plus r.sum_ticks s.ticks_per_sec;
    sum_trades = plus r.sum_trades s.trades_per_sec;
    sum_ob_updates = plus r.sum_ob_updates s.orderbook_updates_per_sec;
    sum_subs = plus r.sum_subs s.subscriptions_per_sec;
    sum_broadcasts = plus r.sum_broadcasts s.broadcasts_per_sec;
    sum_db_writes = plus r.sum_db_writes s.database_writes_per_sec;
    sum_db_reads = plus r.sum_db_reads s.database_reads_per_sec;
  }

  unfoldable pub report_rates : ℕ → RatesRunning Double → Rates Double
  report_rates count r = record {
    messages_received_per_sec = over r.sum_messages_recv count;
    messages_sent_per_sec = over r.sum_messages_sent count;
    bytes_received_per_sec = over r.sum_bytes_recv count;
    bytes_sent_per_sec = over r.sum_bytes_sent count;
    packets_received_per_sec = over r.sum_packets_recv count;
    packets_sent_per_sec = over r.sum_packets_sent count;
    ticks_per_sec = over r.sum_ticks count;
    trades_per_sec = over r.sum_trades count;
    orderbook_updates_per_sec = over r.sum_ob_updates count;
    subscriptions_per_sec = over r.sum_subs count;
    broadcasts_per_sec = over r.sum_broadcasts count;
    database_writes_per_sec = over r.sum_db_writes count;
    database_reads_per_sec = over r.sum_db_reads count;
  }

  unfoldable pub add_all : List (Rates Double) → RatesRunning Double → RatesRunning Double
  add_all [] r = r
  add_all (s ∷ ss) r = add_all ss (add_rates s r)

  -- The state after more snapshots, field by field.
  add_all-sums :
      (ss : List (Rates Double)) (r : RatesRunning Double)
      → add_all ss r ≡ record {
        sum_messages_recv =
            sum_double arithmetic (λ s. s.messages_received_per_sec) r.sum_messages_recv ss;
        sum_messages_sent =
            sum_double arithmetic (λ s. s.messages_sent_per_sec) r.sum_messages_sent ss;
        sum_bytes_recv = sum_double arithmetic (λ s. s.bytes_received_per_sec) r.sum_bytes_recv ss;
        sum_bytes_sent = sum_double arithmetic (λ s. s.bytes_sent_per_sec) r.sum_bytes_sent ss;
        sum_packets_recv =
            sum_double arithmetic (λ s. s.packets_received_per_sec) r.sum_packets_recv ss;
        sum_packets_sent =
            sum_double arithmetic (λ s. s.packets_sent_per_sec) r.sum_packets_sent ss;
        sum_ticks = sum_double arithmetic (λ s. s.ticks_per_sec) r.sum_ticks ss;
        sum_trades = sum_double arithmetic (λ s. s.trades_per_sec) r.sum_trades ss;
        sum_ob_updates =
            sum_double arithmetic (λ s. s.orderbook_updates_per_sec) r.sum_ob_updates ss;
        sum_subs = sum_double arithmetic (λ s. s.subscriptions_per_sec) r.sum_subs ss;
        sum_broadcasts = sum_double arithmetic (λ s. s.broadcasts_per_sec) r.sum_broadcasts ss;
        sum_db_writes = sum_double arithmetic (λ s. s.database_writes_per_sec) r.sum_db_writes ss;
        sum_db_reads = sum_double arithmetic (λ s. s.database_reads_per_sec) r.sum_db_reads ss;
      }
  unfolding add_all add_rates sum_double
  add_all-sums [] r = refl
  add_all-sums (s ∷ ss) r = add_all-sums ss (add_rates s r)

  -- What a report on a first snapshot and others says, by the snapshots themselves.
  unfoldable pub summary : ℕ → Rates Double → List (Rates Double) → Rates Double
  summary n first rest = record {
    messages_received_per_sec =
        over (sum_double arithmetic (λ s. s.messages_received_per_sec) zero_double (first ∷ rest))
          n;
    messages_sent_per_sec =
        over (sum_double arithmetic (λ s. s.messages_sent_per_sec) zero_double (first ∷ rest)) n;
    bytes_received_per_sec =
        over (sum_double arithmetic (λ s. s.bytes_received_per_sec) zero_double (first ∷ rest)) n;
    bytes_sent_per_sec =
        over (sum_double arithmetic (λ s. s.bytes_sent_per_sec) zero_double (first ∷ rest)) n;
    packets_received_per_sec =
        over (sum_double arithmetic (λ s. s.packets_received_per_sec) zero_double (first ∷ rest)) n;
    packets_sent_per_sec =
        over (sum_double arithmetic (λ s. s.packets_sent_per_sec) zero_double (first ∷ rest)) n;
    ticks_per_sec =
        over (sum_double arithmetic (λ s. s.ticks_per_sec) zero_double (first ∷ rest)) n;
    trades_per_sec =
        over (sum_double arithmetic (λ s. s.trades_per_sec) zero_double (first ∷ rest)) n;
    orderbook_updates_per_sec =
        over (sum_double arithmetic (λ s. s.orderbook_updates_per_sec) zero_double (first ∷ rest))
          n;
    subscriptions_per_sec =
        over (sum_double arithmetic (λ s. s.subscriptions_per_sec) zero_double (first ∷ rest)) n;
    broadcasts_per_sec =
        over (sum_double arithmetic (λ s. s.broadcasts_per_sec) zero_double (first ∷ rest)) n;
    database_writes_per_sec =
        over (sum_double arithmetic (λ s. s.database_writes_per_sec) zero_double (first ∷ rest)) n;
    database_reads_per_sec =
        over (sum_double arithmetic (λ s. s.database_reads_per_sec) zero_double (first ∷ rest)) n;
  }

  pub report-add_all :
      (n : ℕ) (first : Rates Double) (rest : List (Rates Double))
      → report_rates n (add_all (first ∷ rest) reset) ≡ summary n first rest
  unfolding report_rates add_all add_rates reset summary sum_double
  report-add_all n first rest = ap (report_rates n) (add_all-sums rest (add_rates first reset))
