-- ===== src/Session/Examples.antt =====
-- Runs of session_manager on a small history, and the theorems at it.
use datafeed_server.Prelude.{
  ℕ, ◌≡◌, ◌≢◌, refl, true, false, ◌&&◌, ◌||◌, List, [], ◌∷◌, none, some, if◌then◌else◌, arith, eqb,
  string_key, nat_key, contains, push_absent, count, lookup, insert, find_or, insert_sorted,
  has_key,
}
use datafeed_server.Session.{
  SessionManager, ClientInfo, init, extra_topics, update_subscribers, update_each, subscribe_topic,
  subscribe_topics, merge_topics, add_client, remove_client, set_client_mode, add_client_topics,
  send_each, broadcast_to_topic, get_clients_by_mode,
}
use datafeed_server.Session.Lookups.{covered_by}
use datafeed_server.Session.Consistency.{is_subscriber, remove_client-leaves_none}
use datafeed_server.Session.Histories.{Call, step, run, AllAllowed, IsWellFormed, run-IsWellFormed}
use datafeed_server.Session.Delivery.{
  receivers, AllCarry, broadcast_to_topic-reaches, add_client_topics-subscribes,
}

-- Two clients; 7 takes the ticker and everything, 9 the ticker, and 7 goes live.
abbrev history : List (ℕ × Call)
history =
    (9, Call.connect)
    ∷ (7, Call.connect)
    ∷ (7, Call.subscribe ("ticker_" ∷ "all_" ∷ []))
    ∷ (9, Call.subscribe ("ticker_" ∷ "ticker_" ∷ []))
    ∷ (7, Call.change_mode "_Live" "")
    ∷ []

abbrev state : SessionManager
state = run history init

abbrev live_info : ClientInfo
live_info = record {
  session = 7;
  mode = "_Live";
  backtest_date = "";
  topics = "ticker_" ∷ "all_" ∷ [];
}

history-AllAllowed : AllAllowed history init
unfolding step add_client add_client_topics lookup insert_sorted
history-AllAllowed =
    ((omega arith, refl), ((omega arith, refl), (omega arith, (omega arith, (omega arith, tt)))))

registered : lookup 7 state.clients ≡ some live_info
unfolding run step add_client add_client_topics set_client_mode merge_topics push_absent contains
    lookup insert_sorted
registered = refl

fan_out : broadcast_to_topic "ticker_" "x" state ≡ (7, "x") ∷ (9, "x") ∷ []
unfolding run step add_client add_client_topics set_client_mode merge_topics push_absent contains
    lookup insert insert_sorted find_or subscribe_topics subscribe_topic update_each
    update_subscribers extra_topics broadcast_to_topic send_each
fan_out = refl

live_clients : get_clients_by_mode "_Live" state ≡ 7 ∷ []
unfolding run step add_client add_client_topics set_client_mode merge_topics push_absent contains
    lookup insert_sorted get_clients_by_mode
live_clients = refl

run-IsWellFormed_example : IsWellFormed state
run-IsWellFormed_example = run-IsWellFormed history history-AllAllowed

remove_client-leaves_none_example :
    (is_subscriber 7 "price_" (remove_client 7 state) ≡ false)
    × (lookup 7 (remove_client 7 state).clients ≡ none)
    × (◌≢◌ {A = ℕ} 9 7
        → is_subscriber 9 "price_" (remove_client 7 state) ≡ is_subscriber 9 "price_" state)
remove_client-leaves_none_example =
    remove_client-leaves_none 7 run-IsWellFormed_example.consistent 9 "price_"

broadcast_to_topic-reaches_example :
    (count 9 (receivers (broadcast_to_topic "ticker_" "x" state))
      ≡ (if is_subscriber 9 "ticker_" state then 1 else 0))
    × (is_subscriber 9 "ticker_" state ≡ true → has_key 9 state.clients ≡ true)
    × AllCarry "x" (broadcast_to_topic "ticker_" "x" state)
broadcast_to_topic-reaches_example =
    broadcast_to_topic-reaches 9 "ticker_" "x" (omega arith) run-IsWellFormed_example

add_client_topics-subscribes_example :
    is_subscriber 7 "bid_" (add_client_topics 7 ("bid_" ∷ []) state)
    ≡ ((eqb 7 7 && covered_by ("bid_" ∷ []) "bid_") || is_subscriber 7 "bid_" state)
add_client_topics-subscribes_example =
    add_client_topics-subscribes 7 state registered 7 "bid_" ("bid_" ∷ [])
