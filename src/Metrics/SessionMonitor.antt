-- ===== src/Metrics/SessionMonitor.antt =====
-- metrics/session_monitor.h and metrics/session_monitor.cpp, class SessionMonitor, with the calls taken one
-- after the other (`Atomics.Races` has what happens otherwise). The two durations are never written but by
-- `reset`, so they are left out; a client's identity is a text, and "" is none.
pub mod Balance
mod Examples
use datafeed_server.Prelude.{
  ℕ, zero, suc, ◌+◌, ◌/◌, Bool, true, false, String, List, [], ◌∷◌, if◌then◌else◌, ltb, eqb, add64,
  ◌==◌, string_key, insert, find_or, length,
}
use datafeed_server.Metrics.Atomics.{bump, drop_one}

pub record SessionMonitor : Type 0 where
  pub active_clients : ℕ
  pub active_sessions : ℕ
  pub active_subscriptions : ℕ
  pub total_connections : ℕ
  pub total_disconnections : ℕ
  pub authentication_failures : ℕ
  pub reconnect_count : ℕ
  pub connections_per_client : List (String × ℕ)

-- also the state of a new monitor
unfoldable pub reset : SessionMonitor
reset = record {
  active_clients = 0;
  active_sessions = 0;
  active_subscriptions = 0;
  total_connections = 0;
  total_disconnections = 0;
  authentication_failures = 0;
  reconnect_count = 0;
  connections_per_client = [];
}

-- `onClientConnected` and its like
pub data Call : Type 0 where
  client_connected client_disconnected : String → Call
  session_created session_removed subscription_created subscription_removed : Call
  authentication_failure reconnect : String → Call

-- `connections_per_client_[client_id]++`, but for the empty identity
unfoldable pub count_client : String → List (String × ℕ) → List (String × ℕ)
unfolding bump
count_client client m = if client == "" then m else insert client (bump (find_or 0 client m)) m

unfoldable pub step : Call → SessionMonitor → SessionMonitor
unfolding bump drop_one count_client
step (Call.client_connected client) m = record m {
  active_clients = bump m.active_clients;
  total_connections = bump m.total_connections;
  connections_per_client = count_client client m.connections_per_client;
}
step (Call.client_disconnected client) m = record m {
  active_clients = drop_one m.active_clients;
  total_disconnections = bump m.total_disconnections;
}
step Call.session_created m = record m { active_sessions = bump m.active_sessions }
step Call.session_removed m = record m { active_sessions = drop_one m.active_sessions }
step Call.subscription_created m = record m { active_subscriptions = bump m.active_subscriptions }
step Call.subscription_removed m = record m {
  active_subscriptions = drop_one m.active_subscriptions;
}
step (Call.authentication_failure client) m = record m {
  authentication_failures = bump m.authentication_failures;
}
step (Call.reconnect client) m = record m { reconnect_count = bump m.reconnect_count }

unfoldable pub run : List Call → SessionMonitor → SessionMonitor
run [] m = m
run (c ∷ cs) m = run cs (step c m)

-- the sum that `getStats` makes of the counts by client, in `uint64_t`
unfoldable pub sum_counts : List (String × ℕ) → ℕ → ℕ
sum_counts [] total = total
sum_counts ((client, n) ∷ m) total = sum_counts m (add64 total n)

-- `connections_per_client` of `getStats`; the other fields are the counters
unfoldable pub mean_connections : SessionMonitor → ℕ
unfolding sum_counts
mean_connections m =
    let clients = length m.connections_per_client in
    if ltb 0 clients then sum_counts m.connections_per_client 0 / clients else 0
