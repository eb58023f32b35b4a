-- ===== src/Metrics/ExchangeMonitor/Isolation.antt =====
-- What metrics/exchange_monitor.cpp knows of an exchange comes of that exchange's calls alone, and what it
-- reports of it after any calls.
use datafeed_server.Prelude.{
  ℕ, ◌≡◌, refl, ◌∙◌, ap, sym, Bool, true, false, String, List, [], ◌∷◌, Option, none, some,
  if◌then◌else◌, arith, ◌==◌, string_key, lookup, find_or, lookup-insert, lookup-erase, Bool-cases,
  Option-cases, inl, inr,
}
use datafeed_server.Metrics.ExchangeMonitor.{
  ExchangeData, ExchangeMonitor, Call, refresh, refresh_all, adjust, fresh, touch, body, step, run,
}

module _ {ℓ} {D : Type ℓ} where
  unfoldable pub or_else : ExchangeData D → Option (ExchangeData D) → ExchangeData D
  or_else d none = d
  or_else d (some e) = e

  unfoldable pub changed :
      (ExchangeData D → ExchangeData D) → Option (ExchangeData D) → Option (ExchangeData D)
  changed f none = none
  changed f (some d) = some (f d)

  pub lookup-adjust :
      (f : ExchangeData D → ExchangeData D) (e x : String) (m : List (String × ExchangeData D))
      → lookup x (adjust f e m) ≡ (if e == x then changed f (lookup x m) else lookup x m)
  unfolding adjust changed
  lookup-adjust f e x m = elim (Option-cases (lookup e m)) [
    | inl none_there ↦ rw (none_there, adjust) (ground (arith, none_there, string_key.same_iff e x))
    | inr (d, there) ↦
        rw (there, adjust)
          (ground (arith, there, lookup-insert e x (f d) m, string_key.same_iff e x))
  ]

  pub lookup-refresh_all :
      (now timeout : ℕ) (x : String) (m : List (String × ExchangeData D))
      → lookup x (refresh_all now timeout m) ≡ changed (refresh now timeout) (lookup x m)
  unfolding refresh_all lookup changed
  lookup-refresh_all now timeout x [] = refl
  lookup-refresh_all now timeout x ((e, d) ∷ m) = ground (arith, lookup-refresh_all now timeout x m)

  -- Does the call concern the exchange?
  unfoldable pub concerns : String → Call D → Bool
  concerns x (Call.connected e t₁ t₂ t₃) = e == x
  concerns x (Call.disconnected e t) = e == x
  concerns x (Call.heartbeat e t) = e == x
  concerns x (Call.message_received e t) = e == x
  concerns x (Call.heartbeat_failure e) = e == x
  concerns x (Call.message_dropped e) = e == x
  concerns x (Call.parse_error e) = e == x
  concerns x (Call.websocket_disconnect e) = e == x
  concerns x (Call.reconnect e) = e == x
  concerns x (Call.feed_lag e ms) = e == x
  concerns x (Call.exchange_latency e ms) = e == x
  concerns x (Call.check_stale e now timeout) = e == x
  concerns x (Call.check_all_stale now timeout) = true
  concerns x (Call.resets e) = e == x
  concerns x Call.resets_all = true

  unfoldable pub calls_of : String → List (Call D) → List (Call D)
  calls_of x [] = []
  calls_of x (c ∷ cs) = if concerns x c then c ∷ calls_of x cs else calls_of x cs

module _ {ℓ} {D : Type ℓ} (zero_ms : D) where
  find_or-or_else :
      (e : String) (m : List (String × ExchangeData D))
      → find_or (fresh zero_ms) e m ≡ or_else (fresh zero_ms) (lookup e m)
  unfolding find_or or_else
  find_or-or_else e m = ground arith

  pub lookup-touch :
      (f : ExchangeData D → ExchangeData D) (e x : String) (m : List (String × ExchangeData D))
      → lookup x (touch zero_ms f e m)
        ≡ (if e == x then some (f (or_else (fresh zero_ms) (lookup x m))) else lookup x m)
  unfolding touch
  lookup-touch f e x m = ground (
    arith,
    lookup-insert e x (f (or_else (fresh zero_ms) (lookup e m))) m,
    find_or-or_else e m,
    string_key.same_iff e x,
  )

  touch-agree :
      (f : ExchangeData D → ExchangeData D) (e x : String) (m m' : List (String × ExchangeData D))
      → lookup x m ≡ lookup x m'
      → (lookup x (touch zero_ms f e m) ≡ lookup x (touch zero_ms f e m'))
        × ((e == x) ≡ false → lookup x (touch zero_ms f e m) ≡ lookup x m)
  touch-agree f e x m m' h = (
    rw (lookup-touch f e x m, lookup-touch f e x m', h) refl,
    λ k. rw (lookup-touch f e x m, k) refl,
  )

  adjust-agree :
      (f : ExchangeData D → ExchangeData D) (e x : String) (m m' : List (String × ExchangeData D))
      → lookup x m ≡ lookup x m'
      → (lookup x (adjust f e m) ≡ lookup x (adjust f e m'))
        × ((e == x) ≡ false → lookup x (adjust f e m) ≡ lookup x m)
  adjust-agree f e x m m' h = (
    rw (lookup-adjust f e x m, lookup-adjust f e x m', h) refl,
    λ k. rw (lookup-adjust f e x m, k) refl,
  )

  -- After a call the maps agree on an exchange if they did before, and a call that does not concern the
  -- exchange leaves it alone.
  body-agree :
      (c : Call D) (x : String) (m m' : List (String × ExchangeData D))
      → lookup x m ≡ lookup x m'
      → (lookup x (body zero_ms c m) ≡ lookup x (body zero_ms c m'))
        × (concerns x c ≡ false → lookup x (body zero_ms c m) ≡ lookup x m)
  unfolding body concerns
  body-agree (Call.connected e t₁ t₂ t₃) x m m' h = touch-agree _ e x m m' h
  body-agree (Call.disconnected e t) x m m' h = adjust-agree _ e x m m' h
  body-agree (Call.heartbeat e t) x m m' h = touch-agree _ e x m m' h
  body-agree (Call.message_received e t) x m m' h = touch-agree _ e x m m' h
  body-agree (Call.heartbeat_failure e) x m m' h = touch-agree _ e x m m' h
  body-agree (Call.message_dropped e) x m m' h = touch-agree _ e x m m' h
  body-agree (Call.parse_error e) x m m' h = touch-agree _ e x m m' h
  body-agree (Call.websocket_disconnect e) x m m' h = touch-agree _ e x m m' h
  body-agree (Call.reconnect e) x m m' h = touch-agree _ e x m m' h
  body-agree (Call.feed_lag e ms) x m m' h = touch-agree _ e x m m' h
  body-agree (Call.exchange_latency e ms) x m m' h = touch-agree _ e x m m' h
  body-agree (Call.check_stale e now timeout) x m m' h =
      adjust-agree (refresh now timeout) e x m m' h
  body-agree (Call.check_all_stale now timeout) x m m' h = (
    lookup-refresh_all now timeout x m
        ∙ ap (changed (refresh now timeout)) h
        ∙ sym (lookup-refresh_all now timeout x m'),
    λ k. ground arith,
  )
  body-agree (Call.resets e) x m m' h =
      (rw (lookup-erase e x m, lookup-erase e x m', h) refl, λ k. rw (lookup-erase e x m, k) refl)
  body-agree Call.resets_all x m m' h = (refl, λ k. ground arith)

  -- the bodies of the calls, one after the other
  unfoldable pub bodies :
      List (Call D) → List (String × ExchangeData D) → List (String × ExchangeData D)
  bodies [] m = m
  bodies (c ∷ cs) m = bodies cs (body zero_ms c m)

  -- From an unlocked monitor every call returns.
  pub run-bodies :
      (cs : List (Call D)) (m : ExchangeMonitor D)
      → m.locked ≡ false
      → run zero_ms cs m ≡ some (record { locked = false; exchanges = bodies cs m.exchanges })
  unfolding run step bodies
  run-bodies [] m h = rw (← h) refl
  run-bodies (c ∷ cs) m h =
      rw (h, run)
        (run-bodies cs (record { locked = false; exchanges = body zero_ms c m.exchanges }) refl)

  pub bodies-calls_of :
      (cs : List (Call D)) (x : String) (m m' : List (String × ExchangeData D))
      → lookup x m ≡ lookup x m'
      → lookup x (bodies cs m) ≡ lookup x (bodies (calls_of x cs) m')
  unfolding bodies calls_of
  bodies-calls_of [] x m m' h = h
  bodies-calls_of (c ∷ cs) x m m' h =
      let (agree, other) = body-agree c x m m' h in
      elim (Bool-cases (concerns x c)) [
        | inl e ↦
            rw (e, calls_of) (bodies-calls_of cs x (body zero_ms c m) (body zero_ms c m') agree)
        | inr e ↦ rw (e, calls_of) (bodies-calls_of cs x (body zero_ms c m) m' (other e ∙ h))
      ]
