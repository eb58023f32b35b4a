-- ===== src/Broker/EAdapter.antt =====
-- broker/include/adapter/eadapter.h and broker/src/adapter/eadapter.cpp, class EAdapter: the client of the
-- exchange that is in use, and what the adapter has asked of it. Of a client (Exchange1 to Exchange3) the
-- model keeps what it was told since it was made; the clients' own work is on the network.
pub mod Tuning
pub mod Calls
mod Examples
use datafeed_server.Prelude.{
  ℕ, Bool, true, false, String, List, [], ◌∷◌, Option, none, some, if◌then◌else◌,
}

-- `enum ExchangeType`
pub data ExchangeType : Type 0 where
  binance jupiter birdeye : ExchangeType

pub record Client : Type 0 where
  pub told_to_connect : Bool
  -- the symbols of the last `subscribe`, if there was one
  pub subscribed : Option (List String)
  pub has_callback : Bool
  pub told_to_stop : Bool

pub record EAdapter : Type 0 where
  pub exchange_type : ExchangeType
  pub exchange1 : Option Client
  pub exchange2 : Option Client
  pub exchange3 : Option Client
  pub symbols : List String
  pub running : Bool
  pub has_external_cb : Bool

-- `std::make_unique<Exchange1>()`
unfoldable pub new_client : Client
new_client = record {
  told_to_connect = false;
  subscribed = none;
  has_callback = false;
  told_to_stop = false;
}

-- `if (exchange) exchange->...`
unfoldable pub tell : (Client → Client) → Option Client → Option Client
tell f none = none
tell f (some c) = some (f c)

-- the three branches on `exchange_type_`
unfoldable pub tell_active : (Client → Client) → EAdapter → EAdapter
tell_active f a = elim a.exchange_type [
  | binance ↦ record a { exchange1 = tell f a.exchange1 }
  | jupiter ↦ record a { exchange2 = tell f a.exchange2 }
  | birdeye ↦ record a { exchange3 = tell f a.exchange3 }
]

unfoldable pub connect_to_exchange : EAdapter → EAdapter
connect_to_exchange a = tell_active (λ c. record c { told_to_connect = true }) a

unfoldable pub subscribe_symbols : EAdapter → EAdapter
subscribe_symbols a = tell_active (λ c. record c { subscribed = some a.symbols }) a

unfoldable pub on_update : EAdapter → EAdapter
on_update a = tell_active (λ c. record c { has_callback = true }) a

-- the assignments to the three pointers
unfoldable pub make_client : ExchangeType → EAdapter → EAdapter
make_client ExchangeType.binance a = record a {
  exchange_type = ExchangeType.binance;
  exchange2 = none;
  exchange3 = none;
  exchange1 = some new_client;
}
make_client ExchangeType.jupiter a = record a {
  exchange_type = ExchangeType.jupiter;
  exchange1 = none;
  exchange3 = none;
  exchange2 = some new_client;
}
make_client ExchangeType.birdeye a = record a {
  exchange_type = ExchangeType.birdeye;
  exchange1 = none;
  exchange2 = none;
  exchange3 = some new_client;
}

unfoldable pub set_exchange : ExchangeType → EAdapter → EAdapter
set_exchange type a =
    let made = make_client type a in
    if made.running then subscribe_symbols (connect_to_exchange (on_update made)) else made

unfoldable pub set_symbols : List String → EAdapter → EAdapter
set_symbols symbols a =
    let changed : EAdapter = record a { symbols = symbols } in
    if changed.running then subscribe_symbols changed else changed

unfoldable pub set_callback : Bool → EAdapter → EAdapter
set_callback cb a =
    let changed : EAdapter = record a { has_external_cb = cb } in
    if changed.running then on_update changed else changed

-- `run` up to its loop, which only waits for `stop`
unfoldable pub begin_run : EAdapter → EAdapter
begin_run a =
    let ready = subscribe_symbols (connect_to_exchange (on_update a)) in
    record ready { running = true }

unfoldable pub stop : EAdapter → EAdapter
stop a = record a {
  running = false;
  exchange2 = tell (λ c. record c { told_to_stop = true }) a.exchange2;
  exchange3 = tell (λ c. record c { told_to_stop = true }) a.exchange3;
}

-- the constructor
unfoldable pub new_adapter : ExchangeType → EAdapter
new_adapter type = set_exchange type (record {
  exchange_type = type;
  exchange1 = none;
  exchange2 = none;
  exchange3 = none;
  symbols = [];
  running = false;
  has_external_cb = false;
})

pub data Call : Type 0 where
  sets_exchange : ExchangeType → Call
  sets_symbols : List String → Call
  sets_callback : Bool → Call
  runs stops : Call

unfoldable pub step : Call → EAdapter → EAdapter
step (Call.sets_exchange type) a = set_exchange type a
step (Call.sets_symbols symbols) a = set_symbols symbols a
step (Call.sets_callback cb) a = set_callback cb a
step Call.runs a = begin_run a
step Call.stops a = stop a

unfoldable pub run : List Call → EAdapter → EAdapter
run [] a = a
run (c ∷ cs) a = run cs (step c a)
