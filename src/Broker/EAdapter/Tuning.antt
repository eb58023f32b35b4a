-- ===== src/Broker/EAdapter/Tuning.antt =====
-- Which client the adapter of broker/src/adapter/eadapter.cpp has, and what the client was told.
use datafeed_server.Prelude.{
  ◌≡◌, refl, ◌∙◌, ap, sym, Bool, true, false, String, List, Option, none, some, arith,
}
use datafeed_server.Broker.EAdapter.{
  ExchangeType, Client, EAdapter, new_client, tell, tell_active, connect_to_exchange,
  subscribe_symbols, on_update, make_client,
}

-- The client of the exchange in use, and the other two.
unfoldable pub active : EAdapter → Option Client
active a = elim a.exchange_type [
  | ExchangeType.binance ↦ a.exchange1
  | ExchangeType.jupiter ↦ a.exchange2
  | ExchangeType.birdeye ↦ a.exchange3
]

unfoldable pub others : EAdapter → Option Client × Option Client
others a = elim a.exchange_type [
  | ExchangeType.binance ↦ (a.exchange2, a.exchange3)
  | ExchangeType.jupiter ↦ (a.exchange1, a.exchange3)
  | ExchangeType.birdeye ↦ (a.exchange1, a.exchange2)
]

-- There is a client of the exchange in use and of no other, and while the adapter runs, the client was told
-- to connect, to call back, and to subscribe to the adapter's symbols.
pub record IsTuned (a : EAdapter) : Type 0 where
  pub client : Client
  pub present : active a ≡ some client
  pub alone : others a ≡ (none, none)
  pub connected : a.running ≡ true → client.told_to_connect ≡ true
  pub listening : a.running ≡ true → client.has_callback ≡ true
  pub current : a.running ≡ true → client.subscribed ≡ some a.symbols

-- What a change of the client in use leaves as it is.
abbrev pub Told : (Client → Client) → EAdapter → EAdapter → Type 0
Told f a b =
    (active b ≡ tell f (active a))
    × (others b ≡ others a)
    × (b.running ≡ a.running)
    × (b.symbols ≡ a.symbols)

tell_active-fields :
    (f : Client → Client) (type : ExchangeType) (c₁ c₂ c₃ : Option Client) (symbols : List String)
    (running cb : Bool)
    → let a : EAdapter = record {
      exchange_type = type;
      exchange1 = c₁;
      exchange2 = c₂;
      exchange3 = c₃;
      symbols = symbols;
      running = running;
      has_external_cb = cb;
    } in
      Told f a (tell_active f a)
unfolding tell_active active others
tell_active-fields f ExchangeType.binance c₁ c₂ c₃ symbols running cb = (refl, refl, refl, refl)
tell_active-fields f ExchangeType.jupiter c₁ c₂ c₃ symbols running cb = (refl, refl, refl, refl)
tell_active-fields f ExchangeType.birdeye c₁ c₂ c₃ symbols running cb = (refl, refl, refl, refl)

pub tell_active-Told : (f : Client → Client) (a : EAdapter) → Told f a (tell_active f a)
tell_active-Told f a =
    tell_active-fields f a.exchange_type a.exchange1 a.exchange2 a.exchange3 a.symbols a.running
      a.has_external_cb

pub active-tell :
    (f : Client → Client) (a b : EAdapter) (c : Client)
    → active b ≡ tell f (active a)
    → active a ≡ some c
    → active b ≡ some (f c)
active-tell f a b c told h = told ∙ ap (tell f) h ∙ (unfold tell in refl)

-- callback, connection and subscription, in this order
unfoldable pub set_up : EAdapter → EAdapter
set_up a = subscribe_symbols (connect_to_exchange (on_update a))

set_up-tells :
    (a : EAdapter) (c : Client)
    → active a ≡ some c
    → (active (set_up a)
        ≡ some
            (record c { told_to_connect = true; subscribed = some a.symbols; has_callback = true }))
      × (others (set_up a) ≡ others a)
      × ((set_up a).running ≡ a.running)
      × ((set_up a).symbols ≡ a.symbols)
unfolding set_up subscribe_symbols connect_to_exchange on_update
set_up-tells a c h =
    let listens : Client → Client = λ d. record d { has_callback = true } in
    let connects : Client → Client = λ d. record d { told_to_connect = true } in
    let a₁ = tell_active listens a in
    let a₂ = tell_active connects a₁ in
    let subscribes : List String → Client → Client =
      λ symbols. λ d. record d { subscribed = some symbols } in
    let (now₁, others₁, run₁, symbols₁) = tell_active-Told listens a in
    let (now₂, others₂, run₂, symbols₂) = tell_active-Told connects a₁ in
    let (now₃, others₃, run₃, symbols₃) = tell_active-Told (subscribes a₂.symbols) a₂ in
    let here : active a₂ ≡ some (connects (listens c)) =
      active-tell connects a₁ a₂ (listens c) now₂ (active-tell listens a a₁ c now₁ h) in
    (
      active-tell (subscribes a₂.symbols) a₂ (tell_active (subscribes a₂.symbols) a₂)
            (connects (listens c)) now₃ here
          ∙ ap (λ symbols. some (subscribes symbols (connects (listens c)))) (symbols₂ ∙ symbols₁),
      others₃ ∙ others₂ ∙ others₁,
      run₃ ∙ run₂ ∙ run₁,
      symbols₃ ∙ symbols₂ ∙ symbols₁,
    )

pub set_up-IsTuned :
    (a : EAdapter) (c : Client) (running : Bool)
    → active a ≡ some c
    → others a ≡ (none, none)
    → IsTuned (record (set_up a) { running = running })
set_up-IsTuned a c running here alone =
    let (now, rest, same, symbols) = set_up-tells a c here in
    record {
      client = record c {
        told_to_connect = true;
        subscribed = some a.symbols;
        has_callback = true;
      };
      present = unfold active in now;
      alone = unfold others in rest ∙ alone;
      connected = λ r. refl;
      listening = λ r. refl;
      current = λ r. ap some (sym symbols);
    }

pub resting-IsTuned :
    (a : EAdapter) (c : Client)
    → a.running ≡ false
    → active a ≡ some c
    → others a ≡ (none, none)
    → IsTuned a
resting-IsTuned a c idle here alone = record {
  client = c;
  present = here;
  alone = alone;
  connected = λ r. ground arith;
  listening = λ r. ground arith;
  current = λ r. ground arith;
}

pub make_client-alone :
    (type : ExchangeType) (a : EAdapter)
    → (active (make_client type a) ≡ some new_client)
      × (others (make_client type a) ≡ (none, none))
      × ((make_client type a).running ≡ a.running)
unfolding make_client active others
make_client-alone ExchangeType.binance a = (refl, refl, refl)
make_client-alone ExchangeType.jupiter a = (refl, refl, refl)
make_client-alone ExchangeType.birdeye a = (refl, refl, refl)
