-- ===== src/Metrics/MetricsCollector/Amounts.antt =====
-- The counters of class MetricsCollector (metrics/metrics_collector.cpp) and of its monitors of throughput and feed
-- health, and by how much each call is to raise them.
use datafeed_server.Prelude.{ℕ, ◌+◌, List, [], ◌∷◌}
use datafeed_server.Metrics.Atomics.{bump}
use datafeed_server.Metrics.ThroughputTracker as ThroughputPart
use datafeed_server.Metrics.ThroughputTracker.{Counter}
use datafeed_server.Metrics.FeedHealth as HealthPart
use datafeed_server.Metrics.LatencyTracker.{DoubleArithmetic}
use datafeed_server.Metrics.MetricsCollector.Calls.{Call, Effect}
use datafeed_server.Metrics.MetricsCollector.{MetricsCollector}

-- a counter of the throughput tracker, of the feed health monitor, or of the collector itself
pub data Quantity : Type 0 where
  counted : Counter → Quantity
  packet_drops duplicate_packets out_of_order_packets sequence_gaps missing_ticks : Quantity
  invalid_messages corrupted_packets parse_failures : Quantity
  parse_errors reconnect_count : Quantity

-- the parts that have these counters
pub record Parts : Type 0 where
  pub tracker : ThroughputPart.ThroughputTracker
  pub health : HealthPart.FeedHealth
  pub parse_errors : ℕ
  pub reconnect_count : ℕ

unfoldable pub shown : Quantity → Parts → ℕ
shown (Quantity.counted k) p = p.tracker.current k
shown Quantity.packet_drops p = p.health.packet_drops
shown Quantity.duplicate_packets p = p.health.duplicate_packets
shown Quantity.out_of_order_packets p = p.health.out_of_order_packets
shown Quantity.sequence_gaps p = p.health.sequence_gaps
shown Quantity.missing_ticks p = p.health.missing_ticks
shown Quantity.invalid_messages p = p.health.invalid_messages
shown Quantity.corrupted_packets p = p.health.corrupted_packets
shown Quantity.parse_failures p = p.health.parse_failures
shown Quantity.parse_errors p = p.parse_errors
shown Quantity.reconnect_count p = p.reconnect_count

module _ (arithmetic : DoubleArithmetic) where
  open arithmetic use {Double, zero_double}

  abbrev pub parts : MetricsCollector arithmetic → Parts
  parts m = record {
    tracker = m.throughput_tracker;
    health = m.feed_health_monitor;
    parse_errors = m.parse_errors;
    reconnect_count = m.reconnect_count;
  }

  -- the quantity's counter
  unfoldable pub value : Quantity → MetricsCollector arithmetic → ℕ
  unfolding shown
  value q m = shown q (parts m)

  -- by how much a call raises a quantity
  unfoldable pub amount : Call arithmetic → Quantity → ℕ
  amount (Call.on_message_received bytes) (Quantity.counted Counter.messages_received) = 1
  amount (Call.on_message_received bytes) (Quantity.counted Counter.bytes_received) = bytes
  amount (Call.on_message_received bytes) (Quantity.counted Counter.packets_received) = 1
  amount (Call.on_message_sent bytes) (Quantity.counted Counter.messages_sent) = 1
  amount (Call.on_message_sent bytes) (Quantity.counted Counter.bytes_sent) = bytes
  amount (Call.on_message_sent bytes) (Quantity.counted Counter.packets_sent) = 1
  amount Call.on_tick (Quantity.counted Counter.ticks) = 1
  amount Call.on_trade (Quantity.counted Counter.trades) = 1
  amount Call.on_orderbook_update (Quantity.counted Counter.orderbook_updates) = 1
  amount Call.on_subscription (Quantity.counted Counter.subscriptions) = 1
  amount Call.on_broadcast (Quantity.counted Counter.broadcasts) = 1
  amount Call.on_database_write (Quantity.counted Counter.database_writes) = 1
  amount Call.on_database_read (Quantity.counted Counter.database_reads) = 1
  amount Call.on_packet_dropped Quantity.packet_drops = 1
  amount Call.on_feed_packet_drop Quantity.packet_drops = 1
  amount Call.on_duplicate_packet Quantity.duplicate_packets = 1
  amount Call.on_feed_duplicate_packet Quantity.duplicate_packets = 1
  amount Call.on_out_of_order_packet Quantity.out_of_order_packets = 1
  amount Call.on_feed_out_of_order_packet Quantity.out_of_order_packets = 1
  amount Call.on_feed_sequence_gap Quantity.sequence_gaps = 1
  amount Call.on_feed_missing_tick Quantity.missing_ticks = 1
  amount Call.on_feed_invalid_message Quantity.invalid_messages = 1
  amount Call.on_feed_corrupted_packet Quantity.corrupted_packets = 1
  amount Call.on_feed_parse_failure Quantity.parse_failures = 1
  amount Call.on_parse_error Quantity.parse_errors = 1
  amount Call.on_parse_error Quantity.parse_failures = 1
  amount Call.on_reconnect Quantity.reconnect_count = 1
  amount _ _ = 0

  -- by how much the calls since the last `reset` do, after an amount
  unfoldable pub total : Quantity → List (Call arithmetic) → ℕ → ℕ
  unfolding amount
  total q [] n = n
  total q (Call.reset now ∷ cs) n = total q cs 0
  total q (c ∷ cs) n = total q cs (n + amount c q)

  -- what an effect does to the parts
  unfoldable pub effect_on : Effect arithmetic → Parts → Parts
  effect_on (Effect.throughput c) p = record p { tracker = ThroughputPart.step c p.tracker }
  effect_on (Effect.health c) p = record p { health = HealthPart.step c p.health }
  effect_on Effect.parse_error p = record p { parse_errors = bump p.parse_errors }
  effect_on Effect.reconnect p = record p { reconnect_count = bump p.reconnect_count }
  effect_on (Effect.reset_all now) p = record {
    tracker = ThroughputPart.reset now;
    health = HealthPart.reset;
    parse_errors = 0;
    reconnect_count = 0;
  }
  effect_on _ p = p

  unfoldable pub effects_on : List (Effect arithmetic) → Parts → Parts
  unfolding effect_on
  effects_on [] p = p
  effects_on (e ∷ es) p = effects_on es (effect_on e p)

  -- a call's part of `total`
  unfoldable pub next : Call arithmetic → Quantity → ℕ → ℕ
  unfolding amount
  next (Call.reset now) q n = 0
  next c q n = n + amount c q
