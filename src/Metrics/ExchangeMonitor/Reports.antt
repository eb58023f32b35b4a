-- ===== src/Metrics/ExchangeMonitor/Reports.antt =====
-- What `getStats` of metrics/exchange_monitor.cpp reports after any calls.
use datafeed_server.Prelude.{
  ℕ, suc, ◌+◌, ◌<◌, ◌≤◌, ◌≡◌, refl, ◌∙◌, ap, sym, false, String, List, [], ◌∷◌, Option, none, some,
  if◌then◌else◌, arith, length, u64_mod, ◌==◌, string_key, lookup, lookup-erase, Bool-cases, inl,
  inr,
}
use datafeed_server.Metrics.Atomics.{bump}
use datafeed_server.Metrics.ExchangeMonitor.{
  ExchangeData, ExchangeMonitor, ExchangeStats, Call, set_connected, refresh, adjust, fresh, touch,
  body, run, stats_of, get_stats,
}
use datafeed_server.Metrics.ExchangeMonitor.Isolation.{
  or_else, changed, lookup-adjust, lookup-refresh_all, lookup-touch, calls_of, bodies, run-bodies,
  bodies-calls_of,
}

module _ {ℓ} {D : Type ℓ} where
  -- The messages received from the exchange since it was last reset, after one call more and after all.
  unfoldable pub next : String → Call D → ℕ → ℕ
  next x (Call.message_received e now) n = if e == x then suc n else n
  next x (Call.resets e) n = if e == x then 0 else n
  next x Call.resets_all n = 0
  next x c n = n

  unfoldable pub received : String → List (Call D) → ℕ → ℕ
  received x [] n = n
  received x (c ∷ cs) n = received x cs (next x c n)

  unfoldable pub messages : Option (ExchangeData D) → ℕ
  messages none = 0
  messages (some d) = d.messages_received

  -- the number of messages in a report, if there is one
  unfoldable pub messages_in : Option (ExchangeStats D) → Option ℕ
  messages_in none = none
  messages_in (some stats) = some stats.messages_received

  messages-changed :
      (f : ExchangeData D → ExchangeData D) (o : Option (ExchangeData D))
      → ((d : ExchangeData D) → (f d).messages_received ≡ d.messages_received)
      → messages (changed f o) ≡ messages o
  unfolding messages changed
  messages-changed f none h = refl
  messages-changed f (some d) h = h d

  messages-adjust :
      (f : ExchangeData D → ExchangeData D) (e x : String) (m : List (String × ExchangeData D))
      → ((d : ExchangeData D) → (f d).messages_received ≡ d.messages_received)
      → messages (lookup x (adjust f e m)) ≡ messages (lookup x m)
  messages-adjust f e x m h = elim (Bool-cases (e == x)) [
    | inl k ↦ rw (lookup-adjust f e x m, k) (messages-changed f (lookup x m) h)
    | inr k ↦ rw (lookup-adjust f e x m, k) refl
  ]

module _ {ℓ} {D : Type ℓ} (zero_ms : D) where
  messages-or_else :
      (o : Option (ExchangeData D)) → (or_else (fresh zero_ms) o).messages_received ≡ messages o
  unfolding messages or_else
  messages-or_else none = refl
  messages-or_else (some d) = refl

  messages-touch :
      (f : ExchangeData D → ExchangeData D) (e x : String) (m : List (String × ExchangeData D))
      → ((d : ExchangeData D) → (f d).messages_received ≡ d.messages_received)
      → messages (lookup x (touch zero_ms f e m)) ≡ messages (lookup x m)
  messages-touch f e x m h = elim (Bool-cases (e == x)) [
    | inl k ↦
        rw (lookup-touch zero_ms f e x m, k)
          (unfold messages in
            h (or_else (fresh zero_ms) (lookup x m)) ∙ messages-or_else (lookup x m))
    | inr k ↦ rw (lookup-touch zero_ms f e x m, k) refl
  ]

  messages-received :
      (f : ExchangeData D → ExchangeData D) (e x : String) (m : List (String × ExchangeData D))
      → ((d : ExchangeData D) → (f d).messages_received ≡ bump d.messages_received)
      → messages (lookup x m) + 1 < u64_mod
      → messages (lookup x (touch zero_ms f e m))
        ≡ (if e == x then suc (messages (lookup x m)) else messages (lookup x m))
  messages-received f e x m h b = elim (Bool-cases (e == x)) [
    | inl k ↦
        rw (lookup-touch zero_ms f e x m, k)
          (unfold messages in
            h (or_else (fresh zero_ms) (lookup x m))
            ∙ ap bump (messages-or_else (lookup x m))
            ∙ (unfold bump in omega arith))
    | inr k ↦ rw (lookup-touch zero_ms f e x m, k) refl
  ]

  messages-body :
      (c : Call D) (x : String) (m : List (String × ExchangeData D))
      → messages (lookup x m) + 1 < u64_mod
      → messages (lookup x (body zero_ms c m)) ≡ next x c (messages (lookup x m))
  unfolding body next refresh set_connected
  messages-body (Call.connected e t₁ t₂ t₃) x m b = messages-touch _ e x m (λ d. refl)
  messages-body (Call.disconnected e t) x m b = messages-adjust _ e x m (λ d. refl)
  messages-body (Call.heartbeat e t) x m b = messages-touch _ e x m (λ d. refl)
  messages-body (Call.message_received e t) x m b = messages-received _ e x m (λ d. refl) b
  messages-body (Call.heartbeat_failure e) x m b = messages-touch _ e x m (λ d. refl)
  messages-body (Call.message_dropped e) x m b = messages-touch _ e x m (λ d. refl)
  messages-body (Call.parse_error e) x m b = messages-touch _ e x m (λ d. refl)
  messages-body (Call.websocket_disconnect e) x m b = messages-touch _ e x m (λ d. refl)
  messages-body (Call.reconnect e) x m b = messages-touch _ e x m (λ d. refl)
  messages-body (Call.feed_lag e ms) x m b = messages-touch _ e x m (λ d. refl)
  messages-body (Call.exchange_latency e ms) x m b = messages-touch _ e x m (λ d. refl)
  messages-body (Call.check_stale e now timeout) x m b = messages-adjust _ e x m (λ d. refl)
  messages-body (Call.check_all_stale now timeout) x m b =
      ap messages (lookup-refresh_all now timeout x m)
      ∙ messages-changed (refresh now timeout) (lookup x m) (λ d. refl)
  messages-body (Call.resets e) x m b = elim (Bool-cases (e == x)) [
    | inl k ↦ rw (lookup-erase e x m, k) (unfold messages in refl)
    | inr k ↦ rw (lookup-erase e x m, k) refl
  ]
  messages-body Call.resets_all x m b = unfold messages lookup in refl

  next-le : (x : String) (c : Call D) (n : ℕ) → next x c n ≤ n + 1
  unfolding next
  next-le x (Call.message_received e now) n = ground arith
  next-le x (Call.resets e) n = ground arith
  next-le x Call.resets_all n = omega arith
  next-le x (Call.heartbeat e t) n = omega arith
  next-le x c n = omega arith

  messages-bodies :
      (cs : List (Call D)) (x : String) (m : List (String × ExchangeData D))
      → messages (lookup x m) + length cs < u64_mod
      → messages (lookup x (bodies zero_ms cs m)) ≡ received x cs (messages (lookup x m))
  unfolding bodies received
  messages-bodies [] x m b = refl
  messages-bodies (c ∷ cs) x m b =
      let one = messages-body c x m (omega arith) in
      messages-bodies cs x (body zero_ms c m)
        (omega (arith, one, next-le x c (messages (lookup x m))))
      ∙ ap (received x cs) one

module _ {ℓ} {D : Type ℓ} (zero_ms : D) (seconds : ℕ → D) where
  -- the report after calls; `none` if one of them does not return
  unfoldable pub reported :
      ℕ → String → List (Call D) → ExchangeMonitor D → Option (ExchangeStats D)
  reported now x cs m = elim (run zero_ms cs m) [
    | none ↦ none
    | some m' ↦ get_stats zero_ms seconds now x m'
  ]

  pub reported-bodies :
      (now : ℕ) (x : String) (cs : List (Call D)) (m : ExchangeMonitor D)
      → m.locked ≡ false
      → reported now x cs m
        ≡ some (stats_of zero_ms seconds now (lookup x (bodies zero_ms cs m.exchanges)))
  unfolding reported get_stats
  reported-bodies now x cs m h = rw (run-bodies zero_ms cs m h, reported) refl

  -- The report on an exchange after any calls, which all return, is the report after those of the calls
  -- that concern the exchange.
  pub reported-calls_of :
      (now : ℕ) (x : String) (cs : List (Call D)) (m : ExchangeMonitor D)
      → m.locked ≡ false
      → (reported now x cs m ≡ reported now x (calls_of x cs) m)
        × (reported now x cs m
            ≡ some (stats_of zero_ms seconds now (lookup x (bodies zero_ms cs m.exchanges))))
  reported-calls_of now x cs m h =
      let one = reported-bodies now x cs m h in
      (
        one
            ∙ ap (λ o. some (stats_of zero_ms seconds now o))
                (bodies-calls_of zero_ms cs x m.exchanges m.exchanges refl)
            ∙ sym (reported-bodies now x (calls_of x cs) m h),
        one,
      )

  messages-stats_of :
      (now : ℕ) (o : Option (ExchangeData D))
      → (stats_of zero_ms seconds now o).messages_received ≡ messages o
  unfolding stats_of messages
  messages-stats_of now none = refl
  messages-stats_of now (some d) = refl

  -- From a new monitor on, after fewer than 2 ^ 64 calls, the report counts the messages received from the
  -- exchange since it was last reset.
  pub reported-received :
      (now : ℕ) (x : String) (cs : List (Call D))
      → length cs < u64_mod
      → messages_in (reported now x cs (record { locked = false; exchanges = [] }))
        ≡ some (received x cs 0)
  unfolding messages_in
  reported-received now x cs b =
      rw (reported-bodies now x cs (record { locked = false; exchanges = [] }) refl) (
        ap some (
          messages-stats_of now (lookup x (bodies zero_ms cs []))
          ∙ messages-bodies zero_ms cs x [] (unfold messages lookup in omega arith)
          ∙ (unfold messages lookup in refl)))
