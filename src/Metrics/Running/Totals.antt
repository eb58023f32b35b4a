-- ===== src/Metrics/Running/Totals.antt =====
-- metrics/metric_aggregator.h and metrics/metric_aggregator.cpp: what class MetricAggregator keeps of the
-- totals of the snapshots, what a snapshot adds, and what it reports.
use datafeed_server.Prelude.{List, [], ap, refl, ℕ, ◌∷◌, ◌≡◌}
use datafeed_server.Metrics.Snapshot.{Totals}
use datafeed_server.Metrics.Running.{latest}

pub record TotalsRunning : Type 0 where
  pub last_total_messages_recv : ℕ
  pub last_total_messages_sent : ℕ
  pub last_total_bytes_recv : ℕ
  pub last_total_bytes_sent : ℕ
  pub last_total_packets_recv : ℕ
  pub last_total_packets_sent : ℕ
  pub last_total_ticks : ℕ
  pub last_total_trades : ℕ
  pub last_total_ob_updates : ℕ
  pub last_total_subs : ℕ
  pub last_total_broadcasts : ℕ
  pub last_total_db_writes : ℕ
  pub last_total_db_reads : ℕ

-- the part of `reset`, also that of a new aggregator
unfoldable pub reset : TotalsRunning
reset = record {
  last_total_messages_recv = 0;
  last_total_messages_sent = 0;
  last_total_bytes_recv = 0;
  last_total_bytes_sent = 0;
  last_total_packets_recv = 0;
  last_total_packets_sent = 0;
  last_total_ticks = 0;
  last_total_trades = 0;
  last_total_ob_updates = 0;
  last_total_subs = 0;
  last_total_broadcasts = 0;
  last_total_db_writes = 0;
  last_total_db_reads = 0;
}

-- the part of `addSnapshot`
unfoldable pub add_totals : Totals → TotalsRunning → TotalsRunning
add_totals s r = record {
  last_total_messages_recv = s.total_messages_received;
  last_total_messages_sent = s.total_messages_sent;
  last_total_bytes_recv = s.total_bytes_received;
  last_total_bytes_sent = s.total_bytes_sent;
  last_total_packets_recv = s.total_packets_received;
  last_total_packets_sent = s.total_packets_sent;
  last_total_ticks = s.total_ticks;
  last_total_trades = s.total_trades;
  last_total_ob_updates = s.total_orderbook_updates;
  last_total_subs = s.total_subscriptions;
  last_total_broadcasts = s.total_broadcasts;
  last_total_db_writes = s.total_database_writes;
  last_total_db_reads = s.total_database_reads;
}

unfoldable pub report_totals : TotalsRunning → Totals
report_totals r = record {
  total_messages_received = r.last_total_messages_recv;
  total_messages_sent = r.last_total_messages_sent;
  total_bytes_received = r.last_total_bytes_recv;
  total_bytes_sent = r.last_total_bytes_sent;
  total_packets_received = r.last_total_packets_recv;
  total_packets_sent = r.last_total_packets_sent;
  total_ticks = r.last_total_ticks;
  total_trades = r.last_total_trades;
  total_orderbook_updates = r.last_total_ob_updates;
  total_subscriptions = r.last_total_subs;
  total_broadcasts = r.last_total_broadcasts;
  total_database_writes = r.last_total_db_writes;
  total_database_reads = r.last_total_db_reads;
}

unfoldable pub add_all : List (Totals) → TotalsRunning → TotalsRunning
add_all [] r = r
add_all (s ∷ ss) r = add_all ss (add_totals s r)

-- The state after more snapshots, field by field.
add_all-sums :
    (ss : List (Totals)) (r : TotalsRunning)
    → add_all ss r ≡ record {
      last_total_messages_recv =
          latest (λ s. s.total_messages_received) r.last_total_messages_recv ss;
      last_total_messages_sent = latest (λ s. s.total_messages_sent) r.last_total_messages_sent ss;
      last_total_bytes_recv = latest (λ s. s.total_bytes_received) r.last_total_bytes_recv ss;
      last_total_bytes_sent = latest (λ s. s.total_bytes_sent) r.last_total_bytes_sent ss;
      last_total_packets_recv = latest (λ s. s.total_packets_received) r.last_total_packets_recv ss;
      last_total_packets_sent = latest (λ s. s.total_packets_sent) r.last_total_packets_sent ss;
      last_total_ticks = latest (λ s. s.total_ticks) r.last_total_ticks ss;
      last_total_trades = latest (λ s. s.total_trades) r.last_total_trades ss;
      last_total_ob_updates = latest (λ s. s.total_orderbook_updates) r.last_total_ob_updates ss;
      last_total_subs = latest (λ s. s.total_subscriptions) r.last_total_subs ss;
      last_total_broadcasts = latest (λ s. s.total_broadcasts) r.last_total_broadcasts ss;
      last_total_db_writes = latest (λ s. s.total_database_writes) r.last_total_db_writes ss;
      last_total_db_reads = latest (λ s. s.total_database_reads) r.last_total_db_reads ss;
    }
unfolding add_all add_totals latest
add_all-sums [] r = refl
add_all-sums (s ∷ ss) r = add_all-sums ss (add_totals s r)

-- What a report on a first snapshot and others says, by the snapshots themselves.
unfoldable pub summary : Totals → List (Totals) → Totals
summary first rest = record {
  total_messages_received =
      latest (λ s. s.total_messages_received) first.total_messages_received rest;
  total_messages_sent = latest (λ s. s.total_messages_sent) first.total_messages_sent rest;
  total_bytes_received = latest (λ s. s.total_bytes_received) first.total_bytes_received rest;
  total_bytes_sent = latest (λ s. s.total_bytes_sent) first.total_bytes_sent rest;
  total_packets_received = latest (λ s. s.total_packets_received) first.total_packets_received rest;
  total_packets_sent = latest (λ s. s.total_packets_sent) first.total_packets_sent rest;
  total_ticks = latest (λ s. s.total_ticks) first.total_ticks rest;
  total_trades = latest (λ s. s.total_trades) first.total_trades rest;
  total_orderbook_updates =
      latest (λ s. s.total_orderbook_updates) first.total_orderbook_updates rest;
  total_subscriptions = latest (λ s. s.total_subscriptions) first.total_subscriptions rest;
  total_broadcasts = latest (λ s. s.total_broadcasts) first.total_broadcasts rest;
  total_database_writes = latest (λ s. s.total_database_writes) first.total_database_writes rest;
  total_database_reads = latest (λ s. s.total_database_reads) first.total_database_reads rest;
}

pub report-add_all :
    (first : Totals) (rest : List (Totals))
    → report_totals (add_all (first ∷ rest) reset) ≡ summary first rest
unfolding report_totals add_all add_totals reset summary latest
report-add_all first rest = ap (report_totals) (add_all-sums rest (add_totals first reset))
