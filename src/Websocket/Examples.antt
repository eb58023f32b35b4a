-- ===== src/Websocket/Examples.antt =====
-- Runs of websocket_session's handlers, and the theorems at them.
use datafeed_server.Prelude.{
  ◌≡◌, ◌≢◌, ◌⊎◌, refl, true, false, not, ◌==◌, ◌&&◌, ◌||◌, String, List, [], ◌∷◌, none, some,
  replicate, length, eqb, string_key, nat_key, contains, lookup, insert_sorted,
}
use datafeed_server.Prelude.Text.{begins, found, suffix_at, first}
use datafeed_server.Session
use datafeed_server.Session.{SessionManager, ClientInfo, broadcast_to_topic, add_client}
use datafeed_server.Session.Consistency.{is_subscriber}
use datafeed_server.Session.Histories.{Call, IsWellFormed, run-IsWellFormed}
use datafeed_server.Session.Histories
use datafeed_server.Websocket.WriteQueue
use datafeed_server.Websocket.WriteQueue.{Writer, Event, handed_over}
use datafeed_server.Websocket.WriteQueue.Order.{IsValid, run-IsValid}
use datafeed_server.Websocket.WriteQueue.Progress.{run-drains, failed_write-stops}
use datafeed_server.Websocket.Topics.{extract_topics, contains-extract_topics, asks_for, vocabulary}
use datafeed_server.Websocket.Reading.{
  JsonLibrary, Shared, ReadError, locks_itself_out, on_read, proceed, requested_dates,
}
use datafeed_server.Websocket.Reading.Safety.{blocks, on_read-reading}
use datafeed_server.Websocket.Reading.Subscribing
use datafeed_server.Websocket.Reading.Subscribing.{
  on_read-subscribes, on_read-keeps_subscriptions, broadcast_to_topic-unheard, backtest_closed,
}

-- Two messages, of which one has been written.
abbrev traffic : List Event
traffic = Event.send "a" ∷ Event.send "b" ∷ Event.complete false ∷ []

abbrev halfway : Writer
halfway = record {
  write_queue = "b" ∷ [];
  writing = true;
  stream = record { in_flight = some "b"; written = "a" ∷ []; overlapped = false };
}

traffic-halfway : WriteQueue.run traffic WriteQueue.init ≡ halfway
unfolding WriteQueue.run WriteQueue.step
traffic-halfway = refl

halfway-IsValid : IsValid ("a" ∷ "b" ∷ []) halfway
halfway-IsValid = record { phase = refl; in_order = refl; single = refl }

run-IsValid_example : IsValid (handed_over traffic) (WriteQueue.run traffic WriteQueue.init)
run-IsValid_example = run-IsValid traffic

run-drains_example :
    WriteQueue.run (replicate (length halfway.write_queue) (Event.complete false)) halfway
    ≡ record {
      write_queue = [];
      writing = false;
      stream = record { in_flight = none; written = "a" ∷ "b" ∷ []; overlapped = false };
    }
run-drains_example = run-drains ("a" ∷ "b" ∷ []) halfway halfway-IsValid refl

failed_write-stops_example :
    WriteQueue.run (Event.complete true ∷ Event.send "c" ∷ []) halfway ≡ record {
      write_queue = "b" ∷ "c" ∷ [];
      writing = true;
      stream = record { in_flight = none; written = "a" ∷ []; overlapped = false };
    }
unfolding handed_over
failed_write-stops_example =
    failed_write-stops ("a" ∷ "b" ∷ []) halfway (Event.send "c" ∷ []) halfway-IsValid refl

-- A stand-in for the JSON library: no message parses.
abbrev no_json : JsonLibrary
no_json = record {
  Value = String;
  parse = λ msg. none;
  holds = λ j key text. false;
  has = λ j key. false;
  value = λ j key default. some default;
  elements = λ j key. [];
  command = λ name. name;
}

abbrev one_client : SessionManager
one_client = Histories.run ((7, Call.connect) ∷ []) Session.init

abbrev fresh_info : ClientInfo
fresh_info = record { session = 7; mode = "unknown"; backtest_date = ""; topics = [] }

abbrev shared : Shared
shared = record {
  manager = one_client;
  adapter = 0;
  adapter_held = false;
  live_source = true;
  backtest_source = true;
}

known : lookup 7 one_client.clients ≡ some fresh_info
unfolding Histories.run Histories.step add_client insert_sorted lookup
known = refl

topics_of_text : extract_topics "subscribe ticker_ feed" ≡ "ticker_" ∷ "feed" ∷ []
unfolding extract_topics found begins
topics_of_text = refl

dates_of_text : requested_dates no_json "_Backtest 2024-05-06 x" ≡ "2024-05-06"
unfolding requested_dates suffix_at first
dates_of_text = refl

contains-extract_topics_example :
    contains (extract_topics "subscribe all") "network"
    ≡ asks_for "subscribe all" vocabulary "network"
contains-extract_topics_example = contains-extract_topics "subscribe all" "network"

-- A stand-in for which each message makes its session the adapter's; the adapter's session is the 9, which nothing
-- else holds.
abbrev all_adapters : JsonLibrary
all_adapters = record no_json { parse = λ msg. some msg; holds = λ j key text. text == "adapter" }

abbrev contested : Shared
contested = record shared { adapter = 9; adapter_held = false }

contested_is_stuck : blocks all_adapters 7 "{}" contested ≡ true
unfolding blocks locks_itself_out
contested_is_stuck = refl

on_read-reading_example :
    ((ReadError.success ≡ ReadError.success)
      × ((on_read all_adapters 7 ReadError.success "{}" "" contested).reading
          ≡ not (blocks all_adapters 7 "{}" contested)))
    ⊎ ((ReadError.success ≢ ReadError.success)
        × (on_read all_adapters 7 ReadError.success "{}" "" contested
            ≡ record (proceed "" contested) { reading = false }))
on_read-reading_example = on_read-reading all_adapters 7 ReadError.success "{}" "" contested

on_read-subscribes_example :
    is_subscriber 7 "bid_"
      (on_read no_json 7 ReadError.success "subscribe bid" "" shared).shared.manager
    ≡ ((eqb 7 7 && asks_for "subscribe bid" vocabulary "bid_") || is_subscriber 7 "bid_" one_client)
unfolding found begins
on_read-subscribes_example =
    on_read-subscribes no_json 7 "subscribe bid" "" shared 7 "bid_" refl refl known

abbrev subscribed : Shared
subscribed = (on_read no_json 7 ReadError.success "subscribe price" "" shared).shared

on_read-keeps_subscriptions_example :
    is_subscriber 7 "price_"
      (on_read no_json 7 ReadError.success "unsubscribe price" "" subscribed).shared.manager
    ≡ true
unfolding found begins asks_for vocabulary
on_read-keeps_subscriptions_example =
    on_read-keeps_subscriptions no_json 7 ReadError.success "unsubscribe price" "" subscribed 7
      "price_" (on_read-subscribes no_json 7 "subscribe price" "" shared 7 "price_" refl refl known)

abbrev unheard_events : List Subscribing.Event
unheard_events =
    Subscribing.Event.opens 7
    ∷ Subscribing.Event.reads 7 ReadError.success "subscribe backtest_price_" ""
    ∷ []

broadcast_to_topic-unheard_example :
    broadcast_to_topic "backtest_price_" "tick"
      (Subscribing.run no_json unheard_events (record shared { manager = Session.init })).manager
    ≡ []
broadcast_to_topic-unheard_example =
    broadcast_to_topic-unheard no_json unheard_events (record shared { manager = Session.init })
      "backtest_price_" "tick" refl backtest_closed.0
