-- ===== src/Websocket/Reading/Safety.antt =====
-- What every message leaves intact: what holds of the registry, the reading, and
-- nobody comes to subscribe to a topic that no message can ask for.
use datafeed_server.Prelude.{
  ℕ, ◌≡◌, ◌≢◌, refl, ◌⊎◌, inl, inr, Bool, true, false, not, ◌&&◌, ◌||◌, String, List, [], ◌∷◌, none,
  some, arith, subst, sym, eqb, Bool-cases, Option-cases, lookup, nat_key, contains, string_key,
}
use datafeed_server.Prelude.Text.{found}
use datafeed_server.Session.{SessionManager, ClientInfo, set_client_mode, add_client_topics}
use datafeed_server.Session.Lookups.{covered_by}
use datafeed_server.Session.Consistency.{is_subscriber}
use datafeed_server.Session.Delivery.{add_client_topics-subscribes}
use datafeed_server.Websocket.Topics.{
  extract_topics, is_offered, extract_topics-offered, contains-extract_topics, asks_for, vocabulary,
}
use datafeed_server.Websocket.Reading.{
  JsonLibrary, Shared, Outcome, ReadError, proceed, switch_exchange, take_adapter, locks_itself_out,
  read_json, read_mode, read_subscription, read_text, requested_dates, on_read,
}

module _ (json : JsonLibrary) where
  open json use {Value}

  manager-switch_exchange :
      (j : Value) (mode : String) (st : Shared) (o : Outcome)
      → switch_exchange json j mode st ≡ some o
      → (o.shared ≡ st) × (o.reading ≡ true)
  unfolding switch_exchange
  manager-switch_exchange j mode st o e = ground arith

  -- The JSON messages leave the registry alone, and the session goes on reading, but for a handler that locks
  -- itself out.
  manager-read_json :
      (s : ℕ) (j : Value) (msg mode : String) (st : Shared) (o : Outcome)
      → read_json json s j msg mode st ≡ some o
      → (o.shared.manager ≡ st.manager)
        × (o.reading ≡ not (json.holds j "type" "adapter" && locks_itself_out s st))
  unfolding read_json take_adapter locks_itself_out
  manager-read_json s j msg mode st o e = ground (arith, manager-switch_exchange j mode st o)

-- Whatever holds of the registry, and is kept by a change of mode and by a subscription to topics that
-- the message asks for, is kept by `on_read`.
module _ {ℓ} (json : JsonLibrary) (P : SessionManager → Type ℓ) (s : ℕ)
    (change_mode : (mode date : String) (m : SessionManager)
      → P m
      → P (set_client_mode s mode date m))
    (subscribe : (msg : String) (m : SessionManager)
      → P m
      → P (add_client_topics s (extract_topics msg) m)) where
  read_mode-keeps :
      (msg mode : String) (st : Shared)
      → P st.manager
      → P (read_mode json s msg mode st).shared.manager
  unfolding read_mode
  read_mode-keeps msg mode st p = elim (Bool-cases (found msg "_Live")) [
    | inl e ↦ rw (e, read_mode) (change_mode "_Live" "" st.manager p)
    | inr e ↦ elim (Bool-cases (found msg "_Backtest")) [
      | inl b ↦
          rw (e, b, read_mode) (change_mode "_Backtest" (requested_dates json msg) st.manager p)
      | inr b ↦ rw (e, b, read_mode) p
    ]
  ]

  read_subscription-keeps :
      (msg : String) (st : Shared) → P st.manager → P (read_subscription s msg st).manager
  unfolding read_subscription
  read_subscription-keeps msg st p = elim (Bool-cases (found msg "subscribe")) [
    | inl e ↦ rw (e, read_subscription) (subscribe msg st.manager p)
    | inr e ↦ rw (e, read_subscription) p
  ]

  read_text-keeps :
      (msg mode : String) (st : Shared)
      → P st.manager
      → P (read_text json s msg mode st).shared.manager
  unfolding read_text
  read_text-keeps msg mode st p =
      read_subscription-keeps msg (read_mode json s msg mode st).shared
        (read_mode-keeps msg mode st p)

  read_value-keeps :
      (j : json.Value) (msg mode : String) (st : Shared) (o : Outcome)
      → P st.manager
      → read_json json s j msg mode st ≡ some o
      → P o.shared.manager
  read_value-keeps j msg mode st o p e =
      subst P (sym (manager-read_json json s j msg mode st o e).0) p

  pub on_read-keeps :
      (ec : ReadError) (msg mode : String) (st : Shared)
      → P st.manager
      → P (on_read json s ec msg mode st).shared.manager
  unfolding on_read
  on_read-keeps ReadError.success msg mode st p = elim (Option-cases (json.parse msg)) [
    | inl e ↦ rw (e, on_read) (read_text-keeps msg mode st p)
    | inr (j, e) ↦ elim (Option-cases (read_json json s j msg mode st)) [
      | inl f ↦ rw (e, f, on_read) (read_text-keeps msg mode st p)
      | inr (o, f) ↦ rw (e, f, on_read) (read_value-keeps j msg mode st o p f)
    ]
  ]
  on_read-keeps ReadError.closed msg mode st p = p
  on_read-keeps ReadError.failure msg mode st p = p

read_text-reading :
    (json : JsonLibrary) (s : ℕ) (msg mode : String) (st : Shared)
    → (read_text json s msg mode st).reading ≡ true
unfolding read_text read_mode
read_text-reading json s msg mode st = ground arith

read_json-blocks :
    (json : JsonLibrary) (s : ℕ) (j : json.Value) (msg mode : String) (st : Shared)
    → read_json json s j msg mode st ≡ none
    → json.holds j "type" "adapter" ≡ false
unfolding read_json
read_json-blocks json s j msg mode st e = ground arith

-- a message that makes its session the adapter's, while the handler locks itself out
unfoldable pub blocks : JsonLibrary → ℕ → String → Shared → Bool
blocks json s msg st = elim (json.parse msg) [
  | none ↦ false
  | some j ↦ json.holds j "type" "adapter" && locks_itself_out s st
]

-- Where the calls of other components return, the session goes on reading after every message, also one that
-- is no JSON or that throws, with one exception: a message that makes it the adapter's session in place of
-- another that nothing else holds. An error ends the reading, changes nothing and sends nothing.
pub on_read-reading :
    (json : JsonLibrary) (s : ℕ) (ec : ReadError) (msg mode : String) (st : Shared)
    → ((ec ≡ ReadError.success)
        × ((on_read json s ec msg mode st).reading ≡ not (blocks json s msg st)))
      ⊎ ((ec ≢ ReadError.success)
          × (on_read json s ec msg mode st ≡ record (proceed mode st) { reading = false }))
unfolding on_read blocks
on_read-reading json s ReadError.success msg mode st = inl (
  refl,
  elim (Option-cases (json.parse msg)) [
    | inl e ↦ rw (e, on_read, blocks) (read_text-reading json s msg mode st)
    | inr (j, e) ↦ elim (Option-cases (read_json json s j msg mode st)) [
      | inl f ↦
          rw (e, f, on_read, blocks, read_json-blocks json s j msg mode st f)
            (read_text-reading json s msg mode st)
      | inr (o, f) ↦ rw (e, f, on_read, blocks) (manager-read_json json s j msg mode st o f).1
    ]
  ],
)
on_read-reading json s ReadError.closed msg mode st = inr (λ e. cc, refl)
on_read-reading json s ReadError.failure msg mode st = inr (λ e. cc, refl)

-- Every topic with a subscriber is one that a message can ask for, or that "all_" stands for.
abbrev pub IsOffered : SessionManager → Type 0
IsOffered m = (r : ℕ) (t : String) → is_subscriber r t m ≡ true → is_offered t ≡ true

-- `extract_topics` never yields "all_", so what it yields covers just itself.
extract_topics-not-all : (msg : String) → contains (extract_topics msg) "all_" ≡ false
unfolding is_offered
extract_topics-not-all msg = elim (Bool-cases (contains (extract_topics msg) "all_")) [
  | inl e ↦ absurd (cc (extract_topics-offered msg "all_" e))
  | inr e ↦ e
]

covered_by-plain :
    (topics : List String) (t : String)
    → contains topics "all_" ≡ false
    → covered_by topics t ≡ contains topics t
unfolding contains
covered_by-plain [] t h = refl
covered_by-plain (topic ∷ topics) t h = ground (arith, covered_by-plain topics t)

-- A registered session that subscribes by a message comes into the lists of the topics that the
-- message asks for, and no other list changes.
pub subscribed-extract_topics :
    (s : ℕ) (m : SessionManager) {info : ClientInfo} (r : ℕ) (t msg : String)
    → lookup s m.clients ≡ some info
    → is_subscriber r t (add_client_topics s (extract_topics msg) m)
      ≡ ((eqb s r && asks_for msg vocabulary t) || is_subscriber r t m)
subscribed-extract_topics s m r t msg known = ground (
  arith,
  add_client_topics-subscribes s m known r t (extract_topics msg),
  covered_by-plain (extract_topics msg) t (extract_topics-not-all msg),
  contains-extract_topics msg t,
)
