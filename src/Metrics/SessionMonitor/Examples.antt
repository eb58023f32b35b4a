-- ===== src/Metrics/SessionMonitor/Examples.antt =====
-- Two clients, one of them anonymous, and the theorem of metrics/session_monitor.cpp at their calls.
use datafeed_server.Prelude.{
  ◌+◌, ◌/◌, ◌≡◌, refl, List, [], ◌∷◌, arith, if◌then◌else◌, ltb, insert, find_or, lookup,
}
use datafeed_server.Metrics.Atomics.{bump, drop_one}
use datafeed_server.Metrics.SessionMonitor.{
  Call, reset, step, run, mean_connections, sum_counts, count_client,
}
use datafeed_server.Metrics.SessionMonitor.Balance.{
  connects, disconnects, named_connects, new_clients, run-balance,
}

abbrev visits : List Call
visits =
    Call.client_connected "alice"
    ∷ Call.client_connected ""
    ∷ Call.session_created
    ∷ Call.client_connected "alice"
    ∷ Call.client_disconnected "alice"
    ∷ []

mean_of_visits : mean_connections (run visits reset) ≡ 2
unfolding run step reset mean_connections sum_counts count_client insert find_or lookup bump
    drop_one
mean_of_visits = refl

run-balance_example :
    ((run visits reset).active_clients + disconnects visits ≡ connects visits)
    × ((run visits reset).total_connections ≡ connects visits)
    × ((run visits reset).total_disconnections ≡ disconnects visits)
    × (mean_connections (run visits reset) ≡ (
        if ltb 0 (new_clients [] visits) then named_connects visits / new_clients [] visits else 0))
run-balance_example = run-balance visits (omega arith) (omega arith)
