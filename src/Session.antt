-- ===== src/Session.antt =====
-- session/session_manager.h and session/session_manager.cpp: the registry of connected clients and the
-- lists of subscribers by topic. A `websocket_session*` is its address, and 0 is the null pointer. Each
-- method holds the mutex for its whole body, so a method is one step; what it sends is its result.
pub mod Lookups
pub mod Consistency
pub mod Uniqueness
pub mod Histories
pub mod Delivery
mod Examples
use datafeed_server.Prelude.{
  ℕ, ◌≡◌, Bool, true, false, ◌&&◌, String, List, [], ◌∷◌, ◌++◌, map, Option, none, some,
  if◌then◌else◌, eqb, Key, ◌==◌, string_key, nat_key, contains, remove, push_absent, lookup, insert,
  erase, find_or, insert_sorted, keys,
}

-- `client_info`
pub record ClientInfo : Type 0 where
  pub session : ℕ
  pub mode : String
  pub backtest_date : String
  pub topics : List String

-- `session_manager`: `topic_subscribers_` and `clients_`.
pub record SessionManager : Type 0 where
  pub topic_subscribers : List (String × List ℕ)
  pub clients : List (ℕ × ClientInfo)

abbrev pub init : SessionManager
init = record { topic_subscribers = []; clients = [] }

-- `extra_topics` and `all_topics`: what a subscription to "all_" stands for.
unfoldable pub extra_topics : List String
extra_topics = "price_" ∷ "bid_" ∷ "ask_" ∷ "quantity_" ∷ "time_" ∷ []

-- `topic_subscribers_[topic]` is replaced by `f` of itself; a missing entry counts as empty.
unfoldable pub update_subscribers :
    (List ℕ → List ℕ) → String → List (String × List ℕ) → List (String × List ℕ)
update_subscribers f topic m = insert topic (f (find_or [] topic m)) m

-- the loop `for (const auto& topic : topics)` over such updates
unfoldable pub update_each :
    (List ℕ → List ℕ) → List String → List (String × List ℕ) → List (String × List ℕ)
update_each f [] m = m
update_each f (topic ∷ topics) m = update_each f topics (update_subscribers f topic m)

unfoldable pub add_client : ℕ → SessionManager → SessionManager
add_client s m = record m {
  clients =
      insert_sorted s (record { session = s; mode = "unknown"; backtest_date = ""; topics = [] })
        m.clients;
}

unfoldable pub remove_client : ℕ → SessionManager → SessionManager
remove_client s m = elim (lookup s m.clients) [
  | none ↦ m
  | some info ↦ record {
    topic_subscribers =
        update_each (remove s) extra_topics
          (update_each (remove s) info.topics m.topic_subscribers);
    clients = erase s m.clients;
  }
]

unfoldable pub set_client_mode : ℕ → String → String → SessionManager → SessionManager
set_client_mode s mode date m = elim (lookup s m.clients) [
  | none ↦ m
  | some info ↦ record m {
    clients = insert_sorted s (record info { mode = mode; backtest_date = date }) m.clients;
  }
]

-- in the order of the addresses
clients_with_mode : String → List (ℕ × ClientInfo) → List ℕ
clients_with_mode mode [] = []
clients_with_mode mode ((s, info) ∷ rest) =
    if info.mode == mode then s ∷ clients_with_mode mode rest else clients_with_mode mode rest

unfoldable pub get_clients_by_mode : String → SessionManager → List ℕ
unfolding clients_with_mode
get_clients_by_mode mode m = clients_with_mode mode m.clients

-- the body of the loop of `add_client_topics` for the topic lists of the subscribers
unfoldable pub subscribe_topic : ℕ → String → List (String × List ℕ) → List (String × List ℕ)
subscribe_topic s topic m =
    if topic == "all_"
    then update_each (push_absent s) extra_topics m
    else update_subscribers (push_absent s) topic m

unfoldable pub subscribe_topics : ℕ → List String → List (String × List ℕ) → List (String × List ℕ)
subscribe_topics s [] m = m
subscribe_topics s (topic ∷ topics) m = subscribe_topics s topics (subscribe_topic s topic m)

-- the same loop for `it->second.topics`, which no other part of the body reads
unfoldable pub merge_topics : List String → List String → List String
merge_topics [] own = own
merge_topics (topic ∷ topics) own = merge_topics topics (push_absent topic own)

unfoldable pub add_client_topics : ℕ → List String → SessionManager → SessionManager
add_client_topics s topics m = elim (lookup s m.clients) [
  | none ↦ m
  | some info ↦ record {
    topic_subscribers = subscribe_topics s topics m.topic_subscribers;
    clients = insert_sorted s (record info { topics = merge_topics topics info.topics }) m.clients;
  }
]

unfoldable pub drop_topics : List String → List String → List String
drop_topics [] own = own
drop_topics (topic ∷ topics) own = drop_topics topics (remove topic own)

unfoldable pub remove_client_topics : ℕ → List String → SessionManager → SessionManager
remove_client_topics s topics m = elim (lookup s m.clients) [
  | none ↦ m
  | some info ↦ record {
    topic_subscribers = update_each (remove s) topics m.topic_subscribers;
    clients = insert_sorted s (record info { topics = drop_topics topics info.topics }) m.clients;
  }
]

unfoldable pub get_subscribers : String → SessionManager → List ℕ
get_subscribers topic m = find_or [] topic m.topic_subscribers

-- the loop that sends: a null pointer is skipped
unfoldable pub send_each : String → List ℕ → List (ℕ × String)
send_each message [] = []
send_each message (s ∷ rest) =
    if eqb s 0 then send_each message rest else (s, message) ∷ send_each message rest

unfoldable pub broadcast_to_topic : String → String → SessionManager → List (ℕ × String)
broadcast_to_topic topic message m = elim (lookup topic m.topic_subscribers) [
  | none ↦ []
  | some subscribers ↦ send_each message subscribers
]

unfoldable pub broadcast_all : String → SessionManager → List (ℕ × String)
broadcast_all message m = send_each message (keys m.clients)
