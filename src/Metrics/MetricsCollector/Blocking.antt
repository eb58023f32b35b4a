-- ===== src/Metrics/MetricsCollector/Blocking.antt =====
-- When `getSnapshot` of class MetricsCollector (metrics/metrics_collector.cpp) does not return.
use datafeed_server.Prelude.{
  ℕ, Bool, true, false, not, ◌||◌, String, List, [], ◌∷◌, none, some, ◌≡◌, ◌↔◌, ◌≢◌, refl, ap, ◌∙◌,
  string_key, insert, lookup, arith, inl, inr, Option-cases, Bool-cases,
}
use datafeed_server.Metrics.LatencyTracker.{DoubleArithmetic}
use datafeed_server.Metrics.SystemMonitor.{Readings}
use datafeed_server.Metrics.ExchangeMonitor.{
  ExchangeData, Call as ExchangeCall, body, touch, adjust, get_all_stats, collect, get_stats,
}
use datafeed_server.Metrics.MetricsCollector.Calls.{Call, forward}
use datafeed_server.Metrics.MetricsCollector.{MetricsCollector, run, init}
use datafeed_server.Metrics.MetricsCollector.Report.{get_snapshot}
use datafeed_server.Metrics.MetricsCollector.Forwarding.{effects_on, exchanges_after, run-exchanges}

abbrev is_empty : {A : Type 0} → List A → Bool
is_empty [] = true
is_empty (a ∷ rest) = false

module _ {D : Type 0} where
  insert-nonempty :
      (e : String) (d : ExchangeData D) (m : List (String × ExchangeData D))
      → is_empty (insert e d m) ≡ false
  unfolding insert
  insert-nonempty e d [] = refl
  insert-nonempty e d ((j, w) ∷ m) = ground arith

  adjust-nonempty :
      (f : ExchangeData D → ExchangeData D) (e : String) (m : List (String × ExchangeData D))
      → is_empty (adjust f e m) ≡ is_empty m
  unfolding adjust lookup
  adjust-nonempty f e [] = refl
  adjust-nonempty f e ((j, w) ∷ m) = elim (Option-cases (lookup e ((j, w) ∷ m))) [
    | inl q ↦ rw (q, adjust) refl
    | inr (d, q) ↦ rw (q, adjust) (insert-nonempty e (f d) ((j, w) ∷ m))
  ]

module _ (arithmetic : DoubleArithmetic) where
  open arithmetic use {Double, zero_double, seconds}

  -- Does the call make an entry for an exchange? Only `onDisconnected` leaves an exchange unknown.
  unfoldable pub tells_of : Call arithmetic → Bool
  tells_of (Call.on_exchange_connected e a b c) = true
  tells_of (Call.on_exchange_heartbeat e a) = true
  tells_of (Call.on_exchange_heartbeat_failure e) = true
  tells_of (Call.on_exchange_message_received e a) = true
  tells_of (Call.on_exchange_message_dropped e) = true
  tells_of (Call.on_exchange_parse_error e) = true
  tells_of (Call.on_exchange_web_socket_disconnect e) = true
  tells_of (Call.on_exchange_reconnect e) = true
  tells_of (Call.update_exchange_feed_lag e x) = true
  tells_of (Call.update_exchange_latency e x) = true
  tells_of _ = false

  -- Did one do so since the last `reset`, or else, did one before?
  unfoldable pub tells_after : List (Call arithmetic) → Bool → Bool
  unfolding tells_of
  tells_after [] before = before
  tells_after (Call.reset now ∷ cs) before = tells_after cs false
  tells_after (c ∷ cs) before = tells_after cs (tells_of c || before)

  abbrev pub tells : List (Call arithmetic) → Bool
  tells cs = tells_after cs false

  is_empty-exchanges_after :
      (cs : List (Call arithmetic)) (m : List (String × ExchangeData Double)) (before : Bool)
      → is_empty m ≡ not before
      → is_empty (exchanges_after arithmetic cs m) ≡ not (tells_after cs before)
  unfolding exchanges_after effects_on forward body touch tells_after
  is_empty-exchanges_after [] m before h = h
  is_empty-exchanges_after (Call.on_exchange_connected e a b c ∷ cs) m before h =
      is_empty-exchanges_after cs (body zero_double (ExchangeCall.connected e a b c) m) true
        (insert-nonempty e _ m)
  is_empty-exchanges_after (Call.on_exchange_heartbeat e a ∷ cs) m before h =
      is_empty-exchanges_after cs (body zero_double (ExchangeCall.heartbeat e a) m) true
        (insert-nonempty e _ m)
  is_empty-exchanges_after (Call.on_exchange_heartbeat_failure e ∷ cs) m before h =
      is_empty-exchanges_after cs (body zero_double (ExchangeCall.heartbeat_failure e) m) true
        (insert-nonempty e _ m)
  is_empty-exchanges_after (Call.on_exchange_message_received e a ∷ cs) m before h =
      is_empty-exchanges_after cs (body zero_double (ExchangeCall.message_received e a) m) true
        (insert-nonempty e _ m)
  is_empty-exchanges_after (Call.on_exchange_message_dropped e ∷ cs) m before h =
      is_empty-exchanges_after cs (body zero_double (ExchangeCall.message_dropped e) m) true
        (insert-nonempty e _ m)
  is_empty-exchanges_after (Call.on_exchange_parse_error e ∷ cs) m before h =
      is_empty-exchanges_after cs (body zero_double (ExchangeCall.parse_error e) m) true
        (insert-nonempty e _ m)
  is_empty-exchanges_after (Call.on_exchange_web_socket_disconnect e ∷ cs) m before h =
      is_empty-exchanges_after cs (body zero_double (ExchangeCall.websocket_disconnect e) m) true
        (insert-nonempty e _ m)
  is_empty-exchanges_after (Call.on_exchange_reconnect e ∷ cs) m before h =
      is_empty-exchanges_after cs (body zero_double (ExchangeCall.reconnect e) m) true
        (insert-nonempty e _ m)
  is_empty-exchanges_after (Call.update_exchange_feed_lag e x ∷ cs) m before h =
      is_empty-exchanges_after cs (body zero_double (ExchangeCall.feed_lag e x) m) true
        (insert-nonempty e _ m)
  is_empty-exchanges_after (Call.update_exchange_latency e x ∷ cs) m before h =
      is_empty-exchanges_after cs (body zero_double (ExchangeCall.exchange_latency e x) m) true
        (insert-nonempty e _ m)
  is_empty-exchanges_after (Call.on_exchange_disconnected e a ∷ cs) m before h =
      is_empty-exchanges_after cs (body zero_double (ExchangeCall.disconnected e a) m) before
        (adjust-nonempty _ e m ∙ h)
  is_empty-exchanges_after (Call.reset now ∷ cs) m before h =
      is_empty-exchanges_after cs [] false refl
  is_empty-exchanges_after (_ ∷ cs) m before h = is_empty-exchanges_after cs m before h

  module _ (now now₁ now₂ : ℕ) (readings : Readings) (clock : ℕ → ℕ) where
    snapshot_blocks :
        (known : List (String × ExchangeData Double)) (m : MetricsCollector arithmetic)
        → m.exchange_monitor ≡ record { locked = false; exchanges = known }
        → is_empty known ≡ false
        → get_snapshot arithmetic now now₁ now₂ readings clock m ≡ none
    unfolding get_snapshot get_all_stats collect get_stats
    snapshot_blocks [] m e h = cc
    snapshot_blocks (x ∷ rest) m e h =
        let blocked : get_all_stats zero_double seconds clock m.exchange_monitor ≡ none =
          ap (get_all_stats zero_double seconds clock) e in
        rw (blocked, get_snapshot) refl

    snapshot_returns :
        (known : List (String × ExchangeData Double)) (m : MetricsCollector arithmetic)
        → m.exchange_monitor ≡ record { locked = false; exchanges = known }
        → is_empty known ≡ true
        → get_snapshot arithmetic now now₁ now₂ readings clock m ≢ none
    unfolding get_snapshot get_all_stats collect get_stats
    snapshot_returns [] m e h q =
        let returned : get_all_stats zero_double seconds clock m.exchange_monitor ≡ some [] =
          ap (get_all_stats zero_double seconds clock) e in
        cc (rw (returned, get_snapshot) at q)
    snapshot_returns (x ∷ rest) m e h q = cc

  -- After any calls on a new collector, `reset` among them, which all return, `getSnapshot` never returns as
  -- soon as one of them since the last `reset`, if any, has told of an exchange other than that it
  -- disconnected, and returns until then.
  pub get_snapshot-blocks :
      (cs : List (Call arithmetic)) (start now now₁ now₂ : ℕ) (readings : Readings) (clock : ℕ → ℕ)
      → (m : MetricsCollector arithmetic) × (run arithmetic cs (init arithmetic start) ≡ some m)
        × ((get_snapshot arithmetic now now₁ now₂ readings clock m ≡ none) ↔ (tells cs ≡ true))
  get_snapshot-blocks cs start now now₁ now₂ readings clock =
      let known : List (String × ExchangeData Double) = exchanges_after arithmetic cs [] in
      let (m, q, same) =
        run-exchanges arithmetic cs (init arithmetic start) [] (unfold init in refl) in
      let empty = is_empty-exchanges_after cs [] false refl in
      (
        m,
        q,
        (elim (Bool-cases (tells cs)) [
          | inl e ↦ (
            λ _. e,
            λ _. snapshot_blocks now now₁ now₂ readings clock known m same (empty ∙ ap not e),
          )
          | inr e ↦ (
            λ r.
                absurd
                  (snapshot_returns now now₁ now₂ readings clock known m same (empty ∙ ap not e) r),
            λ r. cc,
          )
        ]),
      )
