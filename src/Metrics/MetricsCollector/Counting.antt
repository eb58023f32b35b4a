-- ===== src/Metrics/MetricsCollector/Counting.antt =====
-- What the counters of class MetricsCollector (metrics/metrics_collector.cpp) and of its monitors of throughput and
-- feed health come to.
use mathlib.Core.Option.{some-injective}
use datafeed_server.Prelude.{
  ℕ, ◌+◌, ◌%◌, u64_mod, add64, List, [], ◌∷◌, Option, none, some, ◌≡◌, refl, sym, ap, ◌∙◌, inl, inr,
  Option-cases, arith,
}
use datafeed_server.Metrics.Atomics.{bump}
use datafeed_server.Metrics.ThroughputTracker as ThroughputPart
use datafeed_server.Metrics.ThroughputTracker.{Counter}
use datafeed_server.Metrics.ExchangeMonitor as ExchangePart
use datafeed_server.Metrics.FeedHealth as HealthPart
use datafeed_server.Metrics.LatencyTracker.{DoubleArithmetic}
use datafeed_server.Metrics.MetricsCollector.Calls.{Call, Effect, forward}
use datafeed_server.Metrics.MetricsCollector.{
  MetricsCollector, init, on_exchange_monitor, reset, apply, apply_all, step, run,
}
use datafeed_server.Metrics.MetricsCollector.Forwarding.{run-exchanges}
use datafeed_server.Metrics.MetricsCollector.Amounts.{
  Quantity, Parts, shown, parts, value, total, effect_on, effects_on, next,
}

bumps : (x n : ℕ) → x ≡ n % u64_mod → add64 x 1 ≡ (n + 1) % u64_mod
bumps x n h = omega (arith, h)

keeps : (x n : ℕ) → x ≡ n % u64_mod → x ≡ (n + 0) % u64_mod
keeps x n h = omega (arith, h)

module _ (arithmetic : DoubleArithmetic) where
  open arithmetic use {Double}

  shown-forward :
      (c : Call arithmetic) (q : Quantity) (p : Parts) (n : ℕ)
      → shown q p ≡ n % u64_mod
      → shown q (effects_on arithmetic (forward arithmetic c) p) ≡ next arithmetic c q n % u64_mod
  unfolding shown next effects_on forward ThroughputPart.step ThroughputPart.count
      ThroughputPart.count_some ThroughputPart.index ThroughputPart.reset HealthPart.step
      HealthPart.reset bump
  shown-forward (Call.on_message_received bytes) (Quantity.counted Counter.messages_received) p n
        h =
      ground (arith, h)
  shown-forward (Call.on_message_received bytes) (Quantity.counted Counter.bytes_received) p n h =
      ground (arith, h)
  shown-forward (Call.on_message_received bytes) (Quantity.counted Counter.packets_received) p n h =
      ground (arith, h)
  shown-forward (Call.on_message_received bytes) _ p n h = ground (arith, h)
  shown-forward (Call.on_message_sent bytes) (Quantity.counted Counter.messages_sent) p n h =
      ground (arith, h)
  shown-forward (Call.on_message_sent bytes) (Quantity.counted Counter.bytes_sent) p n h =
      ground (arith, h)
  shown-forward (Call.on_message_sent bytes) (Quantity.counted Counter.packets_sent) p n h =
      ground (arith, h)
  shown-forward (Call.on_message_sent bytes) _ p n h = ground (arith, h)
  shown-forward Call.on_tick (Quantity.counted Counter.ticks) p n h = bumps _ n h
  shown-forward Call.on_tick _ p n h = keeps _ n h
  shown-forward Call.on_trade (Quantity.counted Counter.trades) p n h = bumps _ n h
  shown-forward Call.on_trade _ p n h = keeps _ n h
  shown-forward Call.on_orderbook_update (Quantity.counted Counter.orderbook_updates) p n h =
      bumps _ n h
  shown-forward Call.on_orderbook_update _ p n h = keeps _ n h
  shown-forward Call.on_subscription (Quantity.counted Counter.subscriptions) p n h = bumps _ n h
  shown-forward Call.on_subscription _ p n h = keeps _ n h
  shown-forward Call.on_broadcast (Quantity.counted Counter.broadcasts) p n h = bumps _ n h
  shown-forward Call.on_broadcast _ p n h = keeps _ n h
  shown-forward Call.on_database_write (Quantity.counted Counter.database_writes) p n h =
      bumps _ n h
  shown-forward Call.on_database_write _ p n h = keeps _ n h
  shown-forward Call.on_database_read (Quantity.counted Counter.database_reads) p n h = bumps _ n h
  shown-forward Call.on_database_read _ p n h = keeps _ n h
  shown-forward Call.on_packet_dropped Quantity.packet_drops p n h = bumps _ n h
  shown-forward Call.on_packet_dropped _ p n h = keeps _ n h
  shown-forward Call.on_feed_packet_drop Quantity.packet_drops p n h = bumps _ n h
  shown-forward Call.on_feed_packet_drop _ p n h = keeps _ n h
  shown-forward Call.on_duplicate_packet Quantity.duplicate_packets p n h = bumps _ n h
  shown-forward Call.on_duplicate_packet _ p n h = keeps _ n h
  shown-forward Call.on_feed_duplicate_packet Quantity.duplicate_packets p n h = bumps _ n h
  shown-forward Call.on_feed_duplicate_packet _ p n h = keeps _ n h
  shown-forward Call.on_out_of_order_packet Quantity.out_of_order_packets p n h = bumps _ n h
  shown-forward Call.on_out_of_order_packet _ p n h = keeps _ n h
  shown-forward Call.on_feed_out_of_order_packet Quantity.out_of_order_packets p n h = bumps _ n h
  shown-forward Call.on_feed_out_of_order_packet _ p n h = keeps _ n h
  shown-forward Call.on_feed_sequence_gap Quantity.sequence_gaps p n h = bumps _ n h
  shown-forward Call.on_feed_sequence_gap _ p n h = keeps _ n h
  shown-forward Call.on_feed_missing_tick Quantity.missing_ticks p n h = bumps _ n h
  shown-forward Call.on_feed_missing_tick _ p n h = keeps _ n h
  shown-forward Call.on_feed_invalid_message Quantity.invalid_messages p n h = bumps _ n h
  shown-forward Call.on_feed_invalid_message _ p n h = keeps _ n h
  shown-forward Call.on_feed_corrupted_packet Quantity.corrupted_packets p n h = bumps _ n h
  shown-forward Call.on_feed_corrupted_packet _ p n h = keeps _ n h
  shown-forward Call.on_feed_parse_failure Quantity.parse_failures p n h = bumps _ n h
  shown-forward Call.on_feed_parse_failure _ p n h = keeps _ n h
  shown-forward Call.on_parse_error Quantity.parse_errors p n h = bumps _ n h
  shown-forward Call.on_parse_error Quantity.parse_failures p n h = bumps _ n h
  shown-forward Call.on_parse_error _ p n h = keeps _ n h
  shown-forward Call.on_reconnect Quantity.reconnect_count p n h = bumps _ n h
  shown-forward Call.on_reconnect _ p n h = keeps _ n h
  shown-forward (Call.reset now) (Quantity.counted k) p n h = refl
  shown-forward (Call.reset now) _ p n h = refl
  shown-forward (Call.mark_feed_stale b) (Quantity.counted k) p n h = keeps _ n h
  shown-forward (Call.mark_feed_stale b) _ p n h = keeps _ n h
  shown-forward _ _ p n h = keeps _ n h

  parts-on_exchange_monitor :
      (o : Option (ExchangePart.ExchangeMonitor Double)) (m m' : MetricsCollector arithmetic)
      → on_exchange_monitor arithmetic o m ≡ some m'
      → parts arithmetic m' ≡ parts arithmetic m
  unfolding on_exchange_monitor
  parts-on_exchange_monitor none m m' e = cc
  parts-on_exchange_monitor (some em) m m' e = ap (parts arithmetic) (sym (some-injective _ _ e))

  parts-apply :
      (e : Effect arithmetic) (m m' : MetricsCollector arithmetic)
      → apply arithmetic e m ≡ some m'
      → parts arithmetic m' ≡ effect_on arithmetic e (parts arithmetic m)
  unfolding apply effect_on reset bump
  parts-apply (Effect.exchange c) m m' q = parts-on_exchange_monitor _ m m' q
  parts-apply (Effect.reset_all now) m m' q = parts-on_exchange_monitor _ _ m' q
  parts-apply _ m m' q = ap (parts arithmetic) (sym (some-injective _ _ q))

  parts-apply_all :
      (es : List (Effect arithmetic)) (m m' : MetricsCollector arithmetic)
      → apply_all arithmetic es m ≡ some m'
      → parts arithmetic m' ≡ effects_on arithmetic es (parts arithmetic m)
  unfolding effects_on apply_all
  parts-apply_all [] m m' q = ap (parts arithmetic) (sym (some-injective m m' q))
  parts-apply_all (e ∷ es) m m' q = elim (Option-cases (apply arithmetic e m)) [
    | inl r ↦ absurd (cc (rw (r, apply_all) at q))
    | inr (m₁, r) ↦
        parts-apply_all es m₁ m' (rw (r, apply_all) at q)
        ∙ ap (effects_on arithmetic es) (parts-apply e m m₁ r)
  ]

  total-next :
      (c : Call arithmetic) (cs : List (Call arithmetic)) (k : Quantity) (n : ℕ)
      → total arithmetic k (c ∷ cs) n ≡ total arithmetic k cs (next arithmetic c k n)
  unfolding total next
  total-next (Call.reset now) cs k n = refl
  total-next _ cs k n = refl

  run-value :
      (cs : List (Call arithmetic)) (m m' : MetricsCollector arithmetic) (k : Quantity) (n : ℕ)
      → run arithmetic cs m ≡ some m'
      → value arithmetic k m ≡ n % u64_mod
      → value arithmetic k m' ≡ total arithmetic k cs n % u64_mod
  unfolding value run
  run-value [] m m' k n q h =
      ap (value arithmetic k) (sym (some-injective m m' q)) ∙ h ∙ (unfold total in refl)
  run-value (c ∷ cs) m m' k n q h = elim (Option-cases (step arithmetic c m)) [
    | inl r ↦ absurd (cc (rw (r, run) at q))
    | inr (m₁, r) ↦
        run-value cs m₁ m' k (next arithmetic c k n) (rw (r, run) at q) (
          ap (shown k) (parts-apply_all (forward arithmetic c) m m₁ (unfold step in r))
          ∙ shown-forward c k (parts arithmetic m) n h)
        ∙ ap (λ t. t % u64_mod) (sym (total-next c cs k n))
  ]

  value-init : (start : ℕ) (k : Quantity) → value arithmetic k (init arithmetic start) ≡ 0 % u64_mod
  unfolding value shown init ThroughputPart.reset HealthPart.reset
  value-init start (Quantity.counted k) = refl
  value-init start Quantity.packet_drops = refl
  value-init start Quantity.duplicate_packets = refl
  value-init start Quantity.out_of_order_packets = refl
  value-init start Quantity.sequence_gaps = refl
  value-init start Quantity.missing_ticks = refl
  value-init start Quantity.invalid_messages = refl
  value-init start Quantity.corrupted_packets = refl
  value-init start Quantity.parse_failures = refl
  value-init start Quantity.parse_errors = refl
  value-init start Quantity.reconnect_count = refl

  -- After any calls on a new collector, `reset` among them, which all return, each counter of the throughput tracker,
  -- of the feed health monitor and of the collector itself is, modulo 2 ^ 64, the sum of what the calls since
  -- the last `reset` add to it: a message counts as a message, as a packet and with its bytes, a parse error
  -- counts in the collector and as a failure in the feed's health, and no other call adds to them.
  pub run-counts :
      (cs : List (Call arithmetic)) (start : ℕ)
      → (m : MetricsCollector arithmetic) × (run arithmetic cs (init arithmetic start) ≡ some m)
        × ((k : Quantity) → value arithmetic k m ≡ total arithmetic k cs 0 % u64_mod)
  run-counts cs start =
      let (m, q, same) =
        run-exchanges arithmetic cs (init arithmetic start) [] (unfold init in refl) in
      (m, q, λ k. run-value cs (init arithmetic start) m k 0 q (value-init start k))
