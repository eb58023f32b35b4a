-- ===== src/Websocket/Reading.antt =====
-- server/server.cpp: `on_read`, the constructor and the destructor of websocket_session. A session is its
-- address. What it shares with the others is the registry and the globals `g_adapter_session` (0 is
-- null), `g_live_source` and `g_backtest_source` (whether they are set); what it asks of other
-- components is returned in order, and their calls are taken to return.
pub mod Safety
pub mod Subscribing
use datafeed_server.Prelude.{
  ℕ, Bool, true, false, not, ◌&&◌, ◌||◌, String, List, [], ◌∷◌, ◌++◌, Option, none, some,
  if◌then◌else◌, eqb, ◌==◌, string_key,
}
use datafeed_server.Prelude.Text.{found, suffix_at, first}
use datafeed_server.Session.{
  SessionManager, add_client, remove_client, set_client_mode, add_client_topics, broadcast_to_topic,
  broadcast_all,
}
use datafeed_server.Broker.EAdapter.{ExchangeType}
use datafeed_server.Websocket.Topics.{extract_topics}

-- What the handler uses of nlohmann::json. `none` stands for an exception.
pub record JsonLibrary : Type 1 where
  pub Value : Type 0
  -- `json::parse(msg)`
  pub parse : String → Option Value
  -- `j.contains(key) && j[key] == text`, and `j.contains(key)` alone
  pub holds : Value → String → String → Bool
  pub has : Value → String → Bool
  -- `j.value(key, default)`
  pub value : Value → String → String → Option String
  -- the elements of `j[key]` as texts, if it is there and an array
  pub elements : Value → String → List (Option String)
  -- the dump of `{{"command", name}}`
  pub command : String → String

-- `adapter_held`: does anything but the global hold the adapter's session, such as an operation under way?
-- The mutex of the adapter is free between handlers, but where a handler has locked itself out of it.
pub record Shared : Type 0 where
  pub manager : SessionManager
  pub adapter : ℕ
  pub adapter_held : Bool
  pub live_source : Bool
  pub backtest_source : Bool

-- `ec` of a read: none, `websocket::error::closed`, or another
pub data ReadError : Type 0 where
  success closed failure : ReadError

-- The state after a handler; the messages sent, by session; the calls of `switch_exchange` and of
-- `start_replay`, which are taken to return; and whether the next read was started.
pub record Outcome : Type 0 where
  pub shared : Shared
  pub mode : String
  pub sends : List (ℕ × String)
  pub switches : List (ExchangeType × List String)
  pub replays : List String
  pub reading : Bool

-- Nothing but the next read.
unfoldable pub proceed : String → Shared → Outcome
proceed mode st = record {
  shared = st;
  mode = mode;
  sends = [];
  switches = [];
  replays = [];
  reading = true;
}

-- the constructor and the destructor
unfoldable pub open_session : ℕ → Shared → Shared
open_session s st = record st { manager = add_client s st.manager }

unfoldable pub close_session : ℕ → Shared → Shared
close_session s st = record st {
  manager = remove_client s st.manager;
  adapter = if eqb s st.adapter then 0 else st.adapter;
}

-- `if (g_adapter_session) g_adapter_session->send_message(cmd.dump());`
unfoldable pub tell_adapter : String → Shared → List (ℕ × String)
tell_adapter message st = if eqb st.adapter 0 then [] else (st.adapter, message) ∷ []

-- `get<std::string>()` of each element
unfoldable pub all_texts : List (Option String) → Option (List String)
all_texts [] = some []
all_texts (none ∷ rest) = none
all_texts (some t ∷ rest) = elim (all_texts rest) [ none ↦ none | some ts ↦ some (t ∷ ts) ]

unfoldable pub exchange_named : String → ExchangeType
exchange_named name =
    if name == "BIRDEYE"
    then ExchangeType.birdeye
    else if name == "JUPITER"
    then ExchangeType.jupiter
    else ExchangeType.binance

unfoldable pub default_symbols : ExchangeType → List String
default_symbols ExchangeType.binance = "BTCUSDT" ∷ "ETHUSDT" ∷ "SOLUSDT" ∷ []
default_symbols other = "BTC" ∷ "ETH" ∷ "SOL" ∷ []

-- `subscribe` anywhere in the text
unfoldable pub read_subscription : ℕ → String → Shared → Shared
read_subscription s msg st =
    if found msg "subscribe"
    then record st { manager = add_client_topics s (extract_topics msg) st.manager }
    else st

-- Does `g_adapter_session = shared_from_this()` release the last reference to another session? Its destructor
-- then locks `g_adapter_mutex`, which the handler holds.
unfoldable pub locks_itself_out : ℕ → Shared → Bool
locks_itself_out s st = not (eqb st.adapter 0) && not (eqb st.adapter s) && not st.adapter_held

-- the branch for an adapter, whose session this handler holds; it never returns where it locks itself out
unfoldable pub take_adapter : ℕ → String → Shared → Outcome
unfolding proceed locks_itself_out
take_adapter s mode st = record (proceed mode (record st { adapter = s; adapter_held = true })) {
  reading = not (locks_itself_out s st);
}

module _ (json : JsonLibrary) where
  open json use {Value, parse, holds, has, value, elements, command}

  -- the messages of the adapter's session, to the market topics
  unfoldable pub relay : Value → String → SessionManager → List (ℕ × String)
  relay j msg m =
      broadcast_to_topic "price_" msg m
      ++ (broadcast_to_topic "backtest_price_" msg m
          ++ (broadcast_to_topic "bid_" msg m
              ++ (broadcast_to_topic "backtest_bid_" msg m
                  ++ (broadcast_to_topic "ask_" msg m
                      ++ (broadcast_to_topic "backtest_ask_" msg m
                          ++ (if holds j "topic" "backtest_complete"
                              then broadcast_to_topic "backtest_complete" msg m
                              else []))))))

  -- the symbols for `switch_exchange`
  unfoldable pub requested_symbols : Value → ExchangeType → Option (List String)
  unfolding all_texts default_symbols
  requested_symbols j type = elim (elements j "symbols") [
    | [] ↦ some (default_symbols type)
    | e ∷ es ↦ all_texts (e ∷ es)
  ]

  -- the branch for "switch_exchange"; `none` if it throws, which it can only before it has an effect
  unfoldable pub switch_exchange : Value → String → Shared → Option Outcome
  unfolding requested_symbols exchange_named proceed
  switch_exchange j mode st = elim (value j "exchange" "BINANCE") [
    | none ↦ none
    | some name ↦
        if st.live_source
        then elim (requested_symbols j (exchange_named name)) [
          | none ↦ none
          | some symbols ↦
              some (record (proceed mode st) { switches = (exchange_named name, symbols) ∷ [] })
        ]
        else some (proceed mode st)
  ]

  -- the body of the `try`; `none` if it goes on to the plain text
  unfoldable pub read_json : ℕ → Value → String → String → Shared → Option Outcome
  unfolding relay switch_exchange proceed take_adapter
  read_json s j msg mode st =
      if holds j "type" "adapter"
      then some (take_adapter s mode st)
      else if not (eqb st.adapter 0) && eqb s st.adapter
      then some (record (proceed mode st) { sends = relay j msg st.manager })
      else if has j "type" && holds j "type" "backtest_result"
      then some (record (proceed mode st) { sends = broadcast_all msg st.manager })
      else if has j "type" && holds j "type" "switch_exchange"
      then switch_exchange j mode st
      else none

  -- ten characters from the first "20" on, if there are so many
  unfoldable pub requested_dates : String → String
  requested_dates msg = elim (suffix_at msg "20") [
    | none ↦ "2024-01-01,2024-01-01"
    | some rest ↦ elim (first 10 rest) [ none ↦ "2024-01-01,2024-01-01" | some date ↦ date ]
  ]

  -- `_Live` and `_Backtest`
  unfoldable pub read_mode : ℕ → String → String → Shared → Outcome
  unfolding tell_adapter requested_dates proceed
  read_mode s msg mode st =
      if found msg "_Live"
      then record (proceed "_Live" st) {
        shared = record st { manager = set_client_mode s "_Live" "" st.manager };
        sends = tell_adapter (command "stop") st;
      }
      else if found msg "_Backtest"
      then record (proceed "_Backtest" st) {
        shared = record st {
          manager = set_client_mode s "_Backtest" (requested_dates msg) st.manager;
        };
        sends = tell_adapter (command "start") st;
        replays = if st.backtest_source then requested_dates msg ∷ [] else [];
      }
      else proceed mode st

  unfoldable pub read_text : ℕ → String → String → Shared → Outcome
  unfolding read_mode read_subscription
  read_text s msg mode st =
      let o = read_mode s msg mode st in record o { shared = read_subscription s msg o.shared }

  unfoldable pub on_read : ℕ → ReadError → String → String → Shared → Outcome
  unfolding read_json read_text proceed
  on_read s ReadError.success msg mode st = elim (parse msg) [
    | none ↦ read_text s msg mode st
    | some j ↦ elim (read_json s j msg mode st) [ none ↦ read_text s msg mode st | some o ↦ o ]
  ]
  on_read s other msg mode st = record (proceed mode st) { reading = false }
