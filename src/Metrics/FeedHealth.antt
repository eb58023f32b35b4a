-- ===== src/Metrics/FeedHealth.antt =====
-- metrics/feed_health_monitor.h and metrics/feed_health_monitor.cpp, class FeedHealthMonitor: eight counters
-- of faults, a flag for a stale feed, and the score and the status that come of them.
pub mod Score
mod Examples
use datafeed_server.Prelude.{ℕ, Bool, true, false, List, [], ◌∷◌, if◌then◌else◌, ltb, leb, add64}
use datafeed_server.Metrics.Atomics.{bump}

-- `enum class HealthStatus`
pub data HealthStatus : Type 0 where
  healthy degraded critical : HealthStatus

pub record FeedHealth : Type 0 where
  pub packet_drops : ℕ
  pub duplicate_packets : ℕ
  pub out_of_order_packets : ℕ
  pub sequence_gaps : ℕ
  pub missing_ticks : ℕ
  pub invalid_messages : ℕ
  pub corrupted_packets : ℕ
  pub parse_failures : ℕ
  pub stale_feed : Bool

-- also the state of a new monitor
unfoldable pub reset : FeedHealth
reset = record {
  packet_drops = 0;
  duplicate_packets = 0;
  out_of_order_packets = 0;
  sequence_gaps = 0;
  missing_ticks = 0;
  invalid_messages = 0;
  corrupted_packets = 0;
  parse_failures = 0;
  stale_feed = false;
}

-- `onPacketDrop` and its like, and `markStale`
pub data Call : Type 0 where
  packet_drop duplicate_packet out_of_order_packet sequence_gap missing_tick : Call
  invalid_message corrupted_packet parse_failure : Call
  mark_stale : Bool → Call

unfoldable pub step : Call → FeedHealth → FeedHealth
unfolding bump
step Call.packet_drop h = record h { packet_drops = bump h.packet_drops }
step Call.duplicate_packet h = record h { duplicate_packets = bump h.duplicate_packets }
step Call.out_of_order_packet h = record h { out_of_order_packets = bump h.out_of_order_packets }
step Call.sequence_gap h = record h { sequence_gaps = bump h.sequence_gaps }
step Call.missing_tick h = record h { missing_ticks = bump h.missing_ticks }
step Call.invalid_message h = record h { invalid_messages = bump h.invalid_messages }
step Call.corrupted_packet h = record h { corrupted_packets = bump h.corrupted_packets }
step Call.parse_failure h = record h { parse_failures = bump h.parse_failures }
step (Call.mark_stale stale) h = record h { stale_feed = stale }

unfoldable pub run : List Call → FeedHealth → FeedHealth
run [] h = h
run (c ∷ cs) h = run cs (step c h)

-- `total_issues`, a sum of `uint64_t`
unfoldable pub total_issues : FeedHealth → ℕ
total_issues h =
    add64
      (add64
        (add64
          (add64
            (add64 (add64 (add64 h.packet_drops h.duplicate_packets) h.out_of_order_packets)
              h.sequence_gaps)
            h.missing_ticks)
          h.invalid_messages)
        h.corrupted_packets)
      h.parse_failures

unfoldable pub score_of : ℕ → ℕ
score_of issues =
    if ltb 1000 issues
    then 0
    else if ltb 100 issues
    then 25
    else if ltb 50 issues
    then 50
    else if ltb 10 issues
    then 75
    else 100

unfoldable pub calculate_health_score : FeedHealth → ℕ
unfolding total_issues score_of
calculate_health_score h = if h.stale_feed then 0 else score_of (total_issues h)

unfoldable pub get_health_status : FeedHealth → HealthStatus
unfolding calculate_health_score
get_health_status h =
    if h.stale_feed
    then HealthStatus.critical
    else if leb 75 (calculate_health_score h)
    then HealthStatus.healthy
    else if leb 25 (calculate_health_score h)
    then HealthStatus.degraded
    else HealthStatus.critical

-- `FeedHealthStats`
pub record FeedHealthStats : Type 0 where
  pub counters : FeedHealth
  pub health_score : ℕ
  pub status : HealthStatus

unfoldable pub get_stats : FeedHealth → FeedHealthStats
unfolding calculate_health_score get_health_status
get_stats h = record {
  counters = h;
  health_score = calculate_health_score h;
  status = get_health_status h;
}
