-- ===== src/Metrics/MetricsCollector/Forwarding.antt =====
-- What class MetricsCollector (metrics/metrics_collector.cpp) does to the exchange monitor.
use datafeed_server.Prelude.{ℕ, false, String, List, [], ◌∷◌, some, ◌≡◌, refl}
use datafeed_server.Metrics.Atomics.{bump}
use datafeed_server.Metrics.LatencyTracker as LatencyPart
use datafeed_server.Metrics.ThroughputTracker as ThroughputPart
use datafeed_server.Metrics.SystemMonitor as SystemPart
use datafeed_server.Metrics.ExchangeMonitor as ExchangePart
use datafeed_server.Metrics.QueueMonitor as QueuePart
use datafeed_server.Metrics.FeedHealth as HealthPart
use datafeed_server.Metrics.SessionMonitor as SessionPart
use datafeed_server.Metrics.NetworkMonitor as NetworkPart
use datafeed_server.Metrics.DatabaseMonitor as DatabasePart
use datafeed_server.Metrics.LatencyTracker.{DoubleArithmetic}
use datafeed_server.Metrics.MetricsCollector.Calls.{Call, Effect, forward}
use datafeed_server.Metrics.MetricsCollector.{
  MetricsCollector, on_exchange_monitor, reset, apply, apply_all, step, run,
}

module _ (arithmetic : DoubleArithmetic) where
  open arithmetic use {Double, zero_double}

  abbrev pub Exchanges : Type 0
  Exchanges = List (String × ExchangePart.ExchangeData Double)

  unfoldable pub effects_on : List (Effect arithmetic) → Exchanges → Exchanges
  effects_on [] known = known
  effects_on (Effect.exchange c ∷ es) known = effects_on es (ExchangePart.body zero_double c known)
  effects_on (Effect.reset_all now ∷ es) known = effects_on es []
  effects_on (_ ∷ es) known = effects_on es known

  unfoldable pub exchanges_after : List (Call arithmetic) → Exchanges → Exchanges
  unfolding effects_on forward
  exchanges_after [] known = known
  exchanges_after (c ∷ cs) known = exchanges_after cs (effects_on (forward arithmetic c) known)

  -- the monitor, its mutex released
  abbrev pub released : Exchanges → ExchangePart.ExchangeMonitor Double
  released known = record { locked = false; exchanges = known }

  exchange_step :
      (c : ExchangePart.Call Double) (m : MetricsCollector arithmetic) (known : Exchanges)
      → m.exchange_monitor ≡ released known
      → apply arithmetic (Effect.exchange c) m
        ≡ some (record m { exchange_monitor = released (ExchangePart.body zero_double c known) })
  unfolding apply ExchangePart.step
  exchange_step c m known h = rw h refl

  reset_step :
      (now : ℕ) (m : MetricsCollector arithmetic) (known : Exchanges)
      → m.exchange_monitor ≡ released known
      → (m' : MetricsCollector arithmetic) × (apply arithmetic (Effect.reset_all now) m ≡ some m')
        × (m'.exchange_monitor ≡ released [])
  unfolding apply reset on_exchange_monitor ExchangePart.body
  reset_step now m known h =
      let r : ExchangePart.step zero_double ExchangePart.Call.resets_all m.exchange_monitor
          ≡ some (released []) =
        (unfold ExchangePart.step in rw h refl) in
      (
        record m {
          latency_tracker = LatencyPart.clear_all arithmetic m.latency_tracker;
          throughput_tracker = ThroughputPart.reset now;
          system_monitor = SystemPart.init arithmetic now;
          exchange_monitor = released [];
          queue_monitor = QueuePart.reset zero_double;
          feed_health_monitor = HealthPart.reset;
          session_monitor = SessionPart.reset;
          network_monitor = NetworkPart.reset zero_double;
          database_monitor = DatabasePart.reset zero_double;
          parse_errors = 0;
          reconnect_count = 0;
        },
        rw (r, on_exchange_monitor) refl,
        refl,
      )

  apply_all-exchanges :
      (es : List (Effect arithmetic)) (m : MetricsCollector arithmetic) (known : Exchanges)
      → m.exchange_monitor ≡ released known
      → (m' : MetricsCollector arithmetic) × (apply_all arithmetic es m ≡ some m')
        × (m'.exchange_monitor ≡ released (effects_on es known))
  unfolding apply_all effects_on
  apply_all-exchanges [] m known h = (m, refl, h)
  apply_all-exchanges (Effect.latency c ∷ es) m known h =
      apply_all-exchanges es
        (record m { latency_tracker = LatencyPart.step arithmetic c m.latency_tracker }) known h
  apply_all-exchanges (Effect.throughput c ∷ es) m known h =
      apply_all-exchanges es
        (record m { throughput_tracker = ThroughputPart.step c m.throughput_tracker }) known h
  apply_all-exchanges (Effect.queue c ∷ es) m known h =
      apply_all-exchanges es
        (record m { queue_monitor = QueuePart.step zero_double c m.queue_monitor }) known h
  apply_all-exchanges (Effect.health c ∷ es) m known h =
      apply_all-exchanges es
        (record m { feed_health_monitor = HealthPart.step c m.feed_health_monitor }) known h
  apply_all-exchanges (Effect.session c ∷ es) m known h =
      apply_all-exchanges es (record m { session_monitor = SessionPart.step c m.session_monitor })
        known h
  apply_all-exchanges (Effect.network c ∷ es) m known h =
      apply_all-exchanges es
        (record m { network_monitor = NetworkPart.step zero_double c m.network_monitor }) known h
  apply_all-exchanges (Effect.database c ∷ es) m known h =
      apply_all-exchanges es
        (record m { database_monitor = DatabasePart.step zero_double c m.database_monitor }) known h
  apply_all-exchanges (Effect.system_update now readings ∷ es) m known h =
      apply_all-exchanges es
        (record m {
          system_monitor = SystemPart.update_cpu_usage arithmetic now readings m.system_monitor;
        })
        known h
  apply_all-exchanges (Effect.parse_error ∷ es) m known h =
      apply_all-exchanges es (record m { parse_errors = bump m.parse_errors }) known h
  apply_all-exchanges (Effect.reconnect ∷ es) m known h =
      apply_all-exchanges es (record m { reconnect_count = bump m.reconnect_count }) known h
  apply_all-exchanges (Effect.exchange c ∷ es) m known h =
      let later = ExchangePart.body zero_double c known in
      rw (exchange_step c m known h, apply_all)
        (apply_all-exchanges es (record m { exchange_monitor = released later }) later refl)
  apply_all-exchanges (Effect.reset_all now ∷ es) m known h =
      let (m', q, h') = reset_step now m known h in
      rw (q, apply_all) (apply_all-exchanges es m' [] h')

  pub run-exchanges :
      (cs : List (Call arithmetic)) (m : MetricsCollector arithmetic) (known : Exchanges)
      → m.exchange_monitor ≡ released known
      → (m' : MetricsCollector arithmetic) × (run arithmetic cs m ≡ some m')
        × (m'.exchange_monitor ≡ released (exchanges_after cs known))
  unfolding run step exchanges_after
  run-exchanges [] m known h = (m, refl, h)
  run-exchanges (c ∷ cs) m known h =
      let (m', q, h') = apply_all-exchanges (forward arithmetic c) m known h in
      rw (q, run) (run-exchanges cs m' (effects_on (forward arithmetic c) known) h')
