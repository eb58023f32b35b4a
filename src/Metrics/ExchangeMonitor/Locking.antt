-- ===== src/Metrics/ExchangeMonitor/Locking.antt =====
-- What metrics/exchange_monitor.cpp does to itself: the mutex that `getAllStats` locks twice, and the flag
-- `connected` that `checkStale` sets.
use datafeed_server.Prelude.{
  ℕ, ◌<◌, ◌≡◌, refl, ◌∙◌, ap, true, false, String, List, [], ◌∷◌, none, some, lt→ltb, string_key,
  lookup, key_refl,
}
use datafeed_server.Metrics.ExchangeMonitor.{
  ExchangeData, ExchangeMonitor, Call, elapsed_ms, refresh, set_connected, adjust, body, stats_of,
  get_stats, collect, get_all_stats,
}
use datafeed_server.Metrics.ExchangeMonitor.Isolation.{changed, bodies, lookup-adjust}
use datafeed_server.Metrics.ExchangeMonitor.Reports.{reported, reported-bodies}

module _ {ℓ} {D : Type ℓ} where
  lookup-adjust_self :
      (f : ExchangeData D → ExchangeData D) (x : String) (m : List (String × ExchangeData D))
      → lookup x (adjust f x m) ≡ changed f (lookup x m)
  lookup-adjust_self f x m = rw (lookup-adjust f x x m, key_refl x) refl

  refresh_recent :
      (now timeout : ℕ) (d : ExchangeData D) (gone : ℕ)
      → elapsed_ms now d.last_heartbeat < timeout
      → refresh now timeout (record d { connected = false; disconnected_since = gone })
        ≡ record d { connected = true; disconnected_since = gone }
  unfolding refresh set_connected
  refresh_recent now timeout d gone h = rw (lt→ltb (elapsed_ms now d.last_heartbeat) timeout h) refl

module _ {ℓ} {D : Type ℓ} (zero_ms : D) (seconds : ℕ → D) where
  -- `getAllStats` returns only where no exchange is known: else its first call of `getStats` waits for the
  -- mutex that it holds itself.
  pub get_all_stats-blocks :
      (clock : ℕ → ℕ) (e : String) (d : ExchangeData D) (rest : List (String × ExchangeData D))
      → (get_all_stats zero_ms seconds clock (record { locked = false; exchanges = (e, d) ∷ rest })
          ≡ none)
        × (get_all_stats zero_ms seconds clock (record { locked = false; exchanges = [] })
            ≡ some [])
  unfolding get_all_stats collect get_stats
  get_all_stats-blocks clock e d rest = (refl, refl)

  disconnected_then_checked :
      (x : String) (d : ExchangeData D) (gone now timeout : ℕ) (m : List (String × ExchangeData D))
      → lookup x m ≡ some d
      → lookup x (bodies zero_ms (Call.disconnected x gone ∷ Call.check_stale x now timeout ∷ []) m)
        ≡ some (refresh now timeout (record d { connected = false; disconnected_since = gone }))
  unfolding bodies body
  disconnected_then_checked x d gone now timeout m h =
      let gone_data : ExchangeData D → ExchangeData D =
        λ e. record e { connected = false; disconnected_since = gone } in
      lookup-adjust_self (refresh now timeout) x (adjust gone_data x m)
      ∙ ap (changed (refresh now timeout))
          (lookup-adjust_self gone_data x m ∙ ap (changed gone_data) h)
      ∙ (unfold changed in refl)

  -- A check within the timeout after the last heartbeat reports an exchange as connected, although it has
  -- disconnected since.
  pub check_stale-revives :
      (x : String) (d : ExchangeData D) (gone now timeout : ℕ) (m : ExchangeMonitor D)
      → m.locked ≡ false
      → lookup x m.exchanges ≡ some d
      → elapsed_ms now d.last_heartbeat < timeout
      → reported zero_ms seconds now x
          (Call.disconnected x gone ∷ Call.check_stale x now timeout ∷ [])
          m
        ≡ some (
            stats_of zero_ms seconds now
              (some (record d { connected = true; disconnected_since = gone })))
  check_stale-revives x d gone now timeout m free known recent =
      reported-bodies zero_ms seconds now x
        (Call.disconnected x gone ∷ Call.check_stale x now timeout ∷ []) m free
      ∙ ap (λ o. some (stats_of zero_ms seconds now o))
          (disconnected_then_checked x d gone now timeout m.exchanges known
            ∙ ap some (refresh_recent now timeout d gone recent))
