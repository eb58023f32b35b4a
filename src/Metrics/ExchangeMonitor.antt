-- ===== src/Metrics/ExchangeMonitor.antt =====
-- metrics/exchange_monitor.h and metrics/exchange_monitor.cpp, class ExchangeMonitor, with its mutex: a
-- std::mutex that is locked again by the thread that holds it never lets the thread go on, which is `none`.
-- A time is what `steady_clock::now()` returns, in nanoseconds; it never decreases. A `double` is a value
-- of any type `D`, only stored.
pub mod Isolation
pub mod Reports
pub mod Locking
mod Examples
use datafeed_server.Prelude.{
  ℕ, ◌-◌, ◌/◌, Bool, true, false, String, List, [], ◌∷◌, Option, none, some, if◌then◌else◌, ltb,
  add64, ◌==◌, string_key, lookup, insert, erase, find_or,
}
use datafeed_server.Metrics.Atomics.{bump}

pub record ExchangeData {ℓ} (D : Type ℓ) : Type ℓ where
  pub connected : Bool
  pub reconnect_count : ℕ
  pub messages_received : ℕ
  pub messages_dropped : ℕ
  pub parse_errors : ℕ
  pub websocket_disconnects : ℕ
  pub heartbeat_failures : ℕ
  pub feed_lag_ms : D
  pub exchange_latency_ms : D
  pub last_heartbeat : ℕ
  pub last_message : ℕ
  pub connected_since : ℕ
  pub disconnected_since : ℕ

pub record ExchangeMonitor {ℓ} (D : Type ℓ) : Type ℓ where
  pub locked : Bool
  pub exchanges : List (String × ExchangeData D)

pub record ExchangeStats {ℓ} (D : Type ℓ) : Type ℓ where
  pub connected : Bool
  pub uptime_seconds : D
  pub reconnect_count : ℕ
  pub last_heartbeat : ℕ
  pub last_message : ℕ
  pub feed_lag_ms : D
  pub exchange_latency_ms : D
  pub messages_received : ℕ
  pub messages_dropped : ℕ
  pub parse_errors : ℕ
  pub websocket_disconnects : ℕ
  pub heartbeat_failures : ℕ
  pub stale : Bool
  pub connected_since : ℕ

-- `onConnected` and its like, with what the clock returns in them
pub data Call {ℓ} (D : Type ℓ) : Type ℓ where
  connected : String → ℕ → ℕ → ℕ → Call D
  disconnected heartbeat message_received : String → ℕ → Call D
  heartbeat_failure message_dropped parse_error websocket_disconnect reconnect : String → Call D
  feed_lag exchange_latency : String → D → Call D
  -- with the timeout in milliseconds
  check_stale : String → ℕ → ℕ → Call D
  check_all_stale : ℕ → ℕ → Call D
  resets : String → Call D
  resets_all : Call D

-- `duration_cast<milliseconds>(now - time)`
unfoldable pub elapsed_ms : ℕ → ℕ → ℕ
elapsed_ms now time = (now - time) / 1000000

module _ {ℓ} {D : Type ℓ} where
  unfoldable pub set_connected : Bool → ExchangeData D → ExchangeData D
  set_connected b d = record d { connected = b }

  -- `connected.store(elapsed < timeout)`
  unfoldable pub refresh : ℕ → ℕ → ExchangeData D → ExchangeData D
  unfolding elapsed_ms set_connected
  refresh now timeout d = set_connected (ltb (elapsed_ms now d.last_heartbeat) timeout) d

  unfoldable pub refresh_all :
      ℕ → ℕ → List (String × ExchangeData D) → List (String × ExchangeData D)
  refresh_all now timeout [] = []
  refresh_all now timeout ((e, d) ∷ m) = (e, refresh now timeout d) ∷ refresh_all now timeout m

  -- an entry that `find` finds is changed
  unfoldable pub adjust :
      (ExchangeData D → ExchangeData D)
      → String
      → List (String × ExchangeData D)
      → List (String × ExchangeData D)
  adjust f exchange m = elim (lookup exchange m) [ none ↦ m | some d ↦ insert exchange (f d) m ]

module _ {ℓ} {D : Type ℓ} (zero_ms : D) where
  -- a new entry
  abbrev pub fresh : ExchangeData D
  fresh = record {
    connected = false;
    reconnect_count = 0;
    messages_received = 0;
    messages_dropped = 0;
    parse_errors = 0;
    websocket_disconnects = 0;
    heartbeat_failures = 0;
    feed_lag_ms = zero_ms;
    exchange_latency_ms = zero_ms;
    last_heartbeat = 0;
    last_message = 0;
    connected_since = 0;
    disconnected_since = 0;
  }

  -- `auto& data = exchanges_[exchange];` and a change of `data`
  unfoldable pub touch :
      (ExchangeData D → ExchangeData D)
      → String
      → List (String × ExchangeData D)
      → List (String × ExchangeData D)
  touch f exchange m = insert exchange (f (find_or fresh exchange m)) m

  -- what each method does under the lock
  unfoldable pub body : Call D → List (String × ExchangeData D) → List (String × ExchangeData D)
  body (Call.connected e now₁ now₂ now₃) m =
      touch
        (λ d. record d {
          connected = true;
          connected_since = now₁;
          last_heartbeat = now₂;
          last_message = now₃;
        })
        e m
  body (Call.disconnected e now) m =
      adjust (λ d. record d { connected = false; disconnected_since = now }) e m
  body (Call.heartbeat e now) m = touch (λ d. record d { last_heartbeat = now }) e m
  body (Call.message_received e now) m =
      touch (λ d. record d { messages_received = bump d.messages_received; last_message = now }) e m
  body (Call.heartbeat_failure e) m =
      touch (λ d. record d { heartbeat_failures = bump d.heartbeat_failures }) e m
  body (Call.message_dropped e) m =
      touch (λ d. record d { messages_dropped = bump d.messages_dropped }) e m
  body (Call.parse_error e) m = touch (λ d. record d { parse_errors = bump d.parse_errors }) e m
  body (Call.websocket_disconnect e) m =
      touch (λ d. record d { websocket_disconnects = bump d.websocket_disconnects }) e m
  body (Call.reconnect e) m = touch (λ d. record d { reconnect_count = bump d.reconnect_count }) e m
  body (Call.feed_lag e ms) m = touch (λ d. record d { feed_lag_ms = ms }) e m
  body (Call.exchange_latency e ms) m = touch (λ d. record d { exchange_latency_ms = ms }) e m
  body (Call.check_stale e now timeout) m = adjust (refresh now timeout) e m
  body (Call.check_all_stale now timeout) m = refresh_all now timeout m
  body (Call.resets e) m = erase e m
  body Call.resets_all m = []

  -- a method: `std::lock_guard`, the body, and the release
  unfoldable pub step : Call D → ExchangeMonitor D → Option (ExchangeMonitor D)
  step c m =
      if m.locked then none else some (record { locked = false; exchanges = body c m.exchanges })

  unfoldable pub run : List (Call D) → ExchangeMonitor D → Option (ExchangeMonitor D)
  run [] m = some m
  run (c ∷ cs) m = elim (step c m) [ none ↦ none | some m' ↦ run cs m' ]

module _ {ℓ} {D : Type ℓ} (zero_ms : D) (seconds : ℕ → D) where
  -- the body of `getStats`, with the time in seconds that a number of nanoseconds is
  unfoldable pub stats_of : ℕ → Option (ExchangeData D) → ExchangeStats D
  unfolding elapsed_ms
  stats_of now none = record {
    connected = false;
    uptime_seconds = zero_ms;
    reconnect_count = 0;
    last_heartbeat = 0;
    last_message = 0;
    feed_lag_ms = zero_ms;
    exchange_latency_ms = zero_ms;
    messages_received = 0;
    messages_dropped = 0;
    parse_errors = 0;
    websocket_disconnects = 0;
    heartbeat_failures = 0;
    stale = false;
    connected_since = 0;
  }
  stats_of now (some d) = record {
    connected = d.connected;
    uptime_seconds = if d.connected then seconds (now - d.connected_since) else zero_ms;
    reconnect_count = d.reconnect_count;
    last_heartbeat = d.last_heartbeat;
    last_message = d.last_message;
    feed_lag_ms = d.feed_lag_ms;
    exchange_latency_ms = d.exchange_latency_ms;
    messages_received = d.messages_received;
    messages_dropped = d.messages_dropped;
    parse_errors = d.parse_errors;
    websocket_disconnects = d.websocket_disconnects;
    heartbeat_failures = d.heartbeat_failures;
    stale = if d.connected then ltb 5000 (elapsed_ms now d.last_heartbeat) else false;
    connected_since = d.connected_since;
  }

  unfoldable pub get_stats : ℕ → String → ExchangeMonitor D → Option (ExchangeStats D)
  get_stats now exchange m =
      if m.locked then none else some (stats_of now (lookup exchange m.exchanges))

  -- the loop of `getAllStats`, with what the clock returns in each round
  unfoldable pub collect :
      (ℕ → ℕ)
      → ExchangeMonitor D
      → ℕ
      → List (String × ExchangeData D)
      → List (String × ExchangeStats D)
      → Option (List (String × ExchangeStats D))
  collect clock m round [] result = some result
  collect clock m round ((e, d) ∷ rest) result = elim (get_stats (clock round) e m) [
    | none ↦ none
    | some stats ↦ collect clock m (add64 round 1) rest (insert e stats result)
  ]

  unfoldable pub get_all_stats :
      (ℕ → ℕ) → ExchangeMonitor D → Option (List (String × ExchangeStats D))
  get_all_stats clock m =
      if m.locked then none else collect clock (record m { locked = true }) 0 m.exchanges []
