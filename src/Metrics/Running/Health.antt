-- ===== src/Metrics/Running/Health.antt =====
-- metrics/metric_aggregator.h and metrics/metric_aggregator.cpp: what class MetricAggregator keeps of the
-- health of the snapshots, what a snapshot adds, and what it reports. `stale_true_count_` is an `int` and here a
-- number: it counts snapshots, of which an interval has fewer than 2 ^ 31.
use datafeed_server.Prelude.{List, [], add64, ap, ltb, refl, ℕ, ◌%◌, ◌/◌, ◌^◌, ◌∷◌, ◌≡◌}
use datafeed_server.Metrics.FeedHealth.{HealthStatus}
use datafeed_server.Metrics.Snapshot.{Health}
use datafeed_server.Metrics.Running.{sum_count, latest, count_true, count_if, majority, has_status}

pub record HealthRunning : Type 0 where
  pub last_packet_drops : ℕ
  pub last_dup : ℕ
  pub last_o3 : ℕ
  pub last_gaps : ℕ
  pub last_missing : ℕ
  pub last_invalid : ℕ
  pub last_corrupted : ℕ
  pub last_parse_fail : ℕ
  pub stale_true_count : ℕ
  pub sum_health_score : ℕ
  pub healthy_count : ℕ
  pub degraded_count : ℕ
  pub critical_count : ℕ

-- the part of `reset`, also that of a new aggregator
unfoldable pub reset : HealthRunning
reset = record {
  last_packet_drops = 0;
  last_dup = 0;
  last_o3 = 0;
  last_gaps = 0;
  last_missing = 0;
  last_invalid = 0;
  last_corrupted = 0;
  last_parse_fail = 0;
  stale_true_count = 0;
  sum_health_score = 0;
  healthy_count = 0;
  degraded_count = 0;
  critical_count = 0;
}

-- the part of `addSnapshot`
unfoldable pub add_health : Health → HealthRunning → HealthRunning
add_health s r = record {
  last_packet_drops = s.packet_drops;
  last_dup = s.duplicate_packets;
  last_o3 = s.out_of_order_packets;
  last_gaps = s.sequence_gaps;
  last_missing = s.missing_ticks;
  last_invalid = s.invalid_messages;
  last_corrupted = s.corrupted_packets;
  last_parse_fail = s.parse_failures;
  stale_true_count = count_if s.stale_feed r.stale_true_count;
  sum_health_score = add64 r.sum_health_score s.feed_health_score;
  healthy_count = count_if (has_status HealthStatus.healthy s.feed_health_status) r.healthy_count;
  degraded_count =
      count_if (has_status HealthStatus.degraded s.feed_health_status) r.degraded_count;
  critical_count =
      count_if (has_status HealthStatus.critical s.feed_health_status) r.critical_count;
}

unfoldable pub report_health : ℕ → HealthRunning → Health
report_health count r = record {
  packet_drops = r.last_packet_drops;
  duplicate_packets = r.last_dup;
  out_of_order_packets = r.last_o3;
  sequence_gaps = r.last_gaps;
  missing_ticks = r.last_missing;
  invalid_messages = r.last_invalid;
  corrupted_packets = r.last_corrupted;
  parse_failures = r.last_parse_fail;
  stale_feed = ltb (count / 2) r.stale_true_count;
  feed_health_score = (r.sum_health_score / count) % 2 ^ 32;
  feed_health_status = majority r.healthy_count r.degraded_count r.critical_count;
}

unfoldable pub add_all : List (Health) → HealthRunning → HealthRunning
add_all [] r = r
add_all (s ∷ ss) r = add_all ss (add_health s r)

-- The state after more snapshots, field by field.
add_all-sums :
    (ss : List (Health)) (r : HealthRunning)
    → add_all ss r ≡ record {
      last_packet_drops = latest (λ s. s.packet_drops) r.last_packet_drops ss;
      last_dup = latest (λ s. s.duplicate_packets) r.last_dup ss;
      last_o3 = latest (λ s. s.out_of_order_packets) r.last_o3 ss;
      last_gaps = latest (λ s. s.sequence_gaps) r.last_gaps ss;
      last_missing = latest (λ s. s.missing_ticks) r.last_missing ss;
      last_invalid = latest (λ s. s.invalid_messages) r.last_invalid ss;
      last_corrupted = latest (λ s. s.corrupted_packets) r.last_corrupted ss;
      last_parse_fail = latest (λ s. s.parse_failures) r.last_parse_fail ss;
      stale_true_count = count_true (λ s. s.stale_feed) r.stale_true_count ss;
      sum_health_score = sum_count (λ s. s.feed_health_score) r.sum_health_score ss;
      healthy_count =
          count_true (λ s. has_status HealthStatus.healthy s.feed_health_status) r.healthy_count ss;
      degraded_count =
          count_true
            (λ s. has_status HealthStatus.degraded s.feed_health_status)
            r.degraded_count
            ss;
      critical_count =
          count_true
            (λ s. has_status HealthStatus.critical s.feed_health_status)
            r.critical_count
            ss;
    }
unfolding add_all add_health count_true latest sum_count count_if
add_all-sums [] r = refl
add_all-sums (s ∷ ss) r = add_all-sums ss (add_health s r)

-- What a report on a first snapshot and others says, by the snapshots themselves.
unfoldable pub summary : ℕ → Health → List (Health) → Health
summary n first rest = record {
  packet_drops = latest (λ s. s.packet_drops) first.packet_drops rest;
  duplicate_packets = latest (λ s. s.duplicate_packets) first.duplicate_packets rest;
  out_of_order_packets = latest (λ s. s.out_of_order_packets) first.out_of_order_packets rest;
  sequence_gaps = latest (λ s. s.sequence_gaps) first.sequence_gaps rest;
  missing_ticks = latest (λ s. s.missing_ticks) first.missing_ticks rest;
  invalid_messages = latest (λ s. s.invalid_messages) first.invalid_messages rest;
  corrupted_packets = latest (λ s. s.corrupted_packets) first.corrupted_packets rest;
  parse_failures = latest (λ s. s.parse_failures) first.parse_failures rest;
  stale_feed = ltb (n / 2) (count_true (λ s. s.stale_feed) 0 (first ∷ rest));
  feed_health_score = (sum_count (λ s. s.feed_health_score) 0 (first ∷ rest) / n) % 2 ^ 32;
  feed_health_status =
      majority
        (count_true (λ s. has_status HealthStatus.healthy s.feed_health_status) 0 (first ∷ rest))
        (count_true (λ s. has_status HealthStatus.degraded s.feed_health_status) 0 (first ∷ rest))
        (count_true (λ s. has_status HealthStatus.critical s.feed_health_status) 0 (first ∷ rest));
}

pub report-add_all :
    (n : ℕ) (first : Health) (rest : List (Health))
    → report_health n (add_all (first ∷ rest) reset) ≡ summary n first rest
unfolding report_health add_all add_health reset summary count_true latest sum_count count_if
report-add_all n first rest = ap (report_health n) (add_all-sums rest (add_health first reset))
