-- ===== src/Metrics/StateManager/Examples.antt =====
-- An aggregator that sums numbers, and the theorem of metrics/state_manager.cpp at it.
use datafeed_server.Prelude.{ℕ, ◌+◌, ◌≡◌, refl, ap, true, List, [], ◌∷◌}
use datafeed_server.Metrics.StateManager.{
  Aggregation, Event, run, step, init, start_at, take_snapshot, close_interval, is_over, run_round,
}
use datafeed_server.Metrics.StateManager.Accounts.{Accounts, enter_all, empty_ledger}
use datafeed_server.Metrics.StateManager.Runs.{run-init-Accounts}

abbrev sums : Aggregation
sums = record {
  Snapshot = ℕ;
  blank = 0;
  Aggregator = ℕ;
  fresh = 0;
  add_snapshot = λ s a. s + a;
  produce_summary = λ a. a;
  reset = λ a. 0;
  Alike = λ a b. a ≡ b;
  Alike_refl = λ a. refl;
  add_snapshot-Alike = λ s a b e. ap (λ n. s + n) e;
  produce_summary-Alike = λ a b e. e;
  reset-Alike = λ a. refl;
}

-- The second round ends the interval of 15 minutes, and the last comes after the stop.
abbrev events : List (Event sums)
events =
    Event.set_callback true
    ∷ Event.start 0
    ∷ Event.round 5 60000000000 0
    ∷ Event.round 6 900000000000 900000000001
    ∷ Event.round 7 960000000000 0
    ∷ Event.stop
    ∷ Event.round 8 960000000001 0
    ∷ []

summaries_of_events : (run sums events (init sums)).summaries ≡ 11 ∷ []
unfolding run step init start_at take_snapshot close_interval is_over run_round
summaries_of_events = refl

run-init-Accounts_example :
    Accounts sums (run sums events (init sums)) (enter_all sums events (empty_ledger sums))
run-init-Accounts_example = run-init-Accounts sums events
