-- ===== src/Websocket/Reading/Subscribing.antt =====
-- What text messages do to the subscriptions, over a message and over the life of the server.
use datafeed_server.Prelude.{
  ℕ, ◌≡◌, refl, inl, inr, true, false, ◌&&◌, ◌||◌, String, List, [], ◌∷◌, none, some, arith, subst,
  sym, ap, ◌∙◌, eqb, Bool-cases, Option-cases, lookup, nat_key, string_key, find_or, contains,
  remove,
}
use datafeed_server.Prelude.Text.{found}
use datafeed_server.Session.{
  SessionManager, ClientInfo, init, extra_topics, add_client, remove_client, set_client_mode,
  add_client_topics, update_each, send_each, broadcast_to_topic,
}
use datafeed_server.Session.Lookups.{subscribers, subscribed-update_each-remove}
use datafeed_server.Session.Consistency.{is_subscriber}
use datafeed_server.Session.Delivery.{lookup-set_client_mode, broadcast_to_topic-send_each}
use datafeed_server.Websocket.Topics.{
  extract_topics, is_offered, asks_for, vocabulary, extract_topics-offered, contains-extract_topics,
}
use datafeed_server.Websocket.Reading.{
  JsonLibrary, Shared, ReadError, read_mode, read_subscription, read_text, on_read, requested_dates,
  open_session, close_session,
}
use datafeed_server.Websocket.Reading.Safety.{IsOffered, on_read-keeps, subscribed-extract_topics}

subscribers-set_client_mode :
    (s : ℕ) (mode date : String) (m : SessionManager)
    → (set_client_mode s mode date m).topic_subscribers ≡ m.topic_subscribers
unfolding set_client_mode
subscribers-set_client_mode s mode date m = ground arith

-- After the change of mode that a message may ask for, the subscribers are as before and the session is
-- still registered.
read_mode-known :
    (json : JsonLibrary) (s : ℕ) (msg mode : String) (st : Shared) {info : ClientInfo}
    → lookup s st.manager.clients ≡ some info
    → ((read_mode json s msg mode st).shared.manager.topic_subscribers
        ≡ st.manager.topic_subscribers)
      × ((after : ClientInfo) × (lookup s (read_mode json s msg mode st).shared.manager.clients
            ≡ some after))
unfolding read_mode
read_mode-known json s msg mode st {info} known = elim (Bool-cases (found msg "_Live")) [
  | inl e ↦
      rw (e, read_mode)
        (
          subscribers-set_client_mode s "_Live" "" st.manager,
          (
            record info { mode = "_Live"; backtest_date = "" },
            ground (arith, lookup-set_client_mode s st.manager known s "_Live" ""),
          ),
        )
  | inr e ↦ elim (Bool-cases (found msg "_Backtest")) [
    | inl b ↦
        rw (e, b, read_mode)
          (
            subscribers-set_client_mode s "_Backtest" (requested_dates json msg) st.manager,
            (
              record info { mode = "_Backtest"; backtest_date = requested_dates json msg },
              ground (
                arith,
                lookup-set_client_mode s st.manager known s "_Backtest" (requested_dates json msg),
              ),
            ),
          )
    | inr b ↦ rw (e, b, read_mode) (refl, (info, known))
  ]
]

-- A text message of a registered session that is no JSON and holds "subscribe" adds the session to the
-- lists of the topics that the message asks for, whatever else the message says, and changes no other
-- list.
pub on_read-subscribes :
    (json : JsonLibrary) (s : ℕ) (msg mode : String) (st : Shared) {info : ClientInfo} (r : ℕ)
    (t : String)
    → json.parse msg ≡ none
    → found msg "subscribe" ≡ true
    → lookup s st.manager.clients ≡ some info
    → is_subscriber r t (on_read json s ReadError.success msg mode st).shared.manager
      ≡ ((eqb s r && asks_for msg vocabulary t) || is_subscriber r t st.manager)
unfolding on_read read_text read_subscription
on_read-subscribes json s msg mode st r t plain asked known =
    let (same, entry) = read_mode-known json s msg mode st known in
    let m' : SessionManager = (read_mode json s msg mode st).shared.manager in
    rw (plain, asked, on_read, read_text, read_subscription)
      (subscribed-extract_topics s m' r t msg entry.1
        ∙ ap
            (λ (lists : List (String × List ℕ)).
              (eqb s r && asks_for msg vocabulary t) || contains (subscribers t lists) r)
            same)

-- What a session of the server lives through: it is opened, reads, and is closed.
pub data Event : Type 0 where
  opens : ℕ → Event
  reads : ℕ → ReadError → String → String → Event
  closes : ℕ → Event
  -- nothing but the global holds the adapter's session any more
  lets_go : Event

unfoldable pub step : JsonLibrary → Event → Shared → Shared
unfolding open_session close_session
step json (Event.opens s) st = open_session s st
step json (Event.reads s ec msg mode) st = (on_read json s ec msg mode st).shared
step json (Event.closes s) st = close_session s st
step json Event.lets_go st = record st { adapter_held = false }

unfoldable pub run : JsonLibrary → List Event → Shared → Shared
run json [] st = st
run json (e ∷ es) st = run json es (step json e st)

add_client_topics-IsOffered :
    (s : ℕ) (msg : String) (m : SessionManager)
    → IsOffered m
    → IsOffered (add_client_topics s (extract_topics msg) m)
unfolding add_client_topics
add_client_topics-IsOffered s msg m v r t h = elim (Option-cases (lookup s m.clients)) [
  | inl e ↦ v r t (subst (λ m'. is_subscriber r t m' ≡ true) (absent e) h)
  | inr (info, e) ↦ ground (
    arith,
    v r t,
    subscribed-extract_topics s m r t msg e,
    contains-extract_topics msg t,
    extract_topics-offered msg t,
  )
]
  where
    absent : lookup s m.clients ≡ none → add_client_topics s (extract_topics msg) m ≡ m
    absent e = rw (e, add_client_topics)

add_client_topics-keeps :
    (s r : ℕ) (t msg : String) (m : SessionManager)
    → is_subscriber r t m ≡ true
    → is_subscriber r t (add_client_topics s (extract_topics msg) m) ≡ true
unfolding add_client_topics
add_client_topics-keeps s r t msg m h = elim (Option-cases (lookup s m.clients)) [
  | inl e ↦ rw (e, add_client_topics) h
  | inr (info, e) ↦ ground (arith, subscribed-extract_topics s m r t msg e)
]

-- No message of any session takes back a subscription of any session, "unsubscribe" included, whether it is JSON
-- or not and whether its session is registered or not; nor does an error.
pub on_read-keeps_subscriptions :
    (json : JsonLibrary) (s : ℕ) (ec : ReadError) (msg mode : String) (st : Shared) (r : ℕ)
    (t : String)
    → is_subscriber r t st.manager ≡ true
    → is_subscriber r t (on_read json s ec msg mode st).shared.manager ≡ true
on_read-keeps_subscriptions json s ec msg mode st r t =
    on_read-keeps json (λ m. is_subscriber r t m ≡ true) s
      (λ md date m h.
        subst (λ lists. contains (subscribers t lists) r ≡ true)
          (sym (subscribers-set_client_mode s md date m)) h)
      (λ text m h. add_client_topics-keeps s r t text m h) ec msg mode st

remove_client-IsOffered : (s : ℕ) (m : SessionManager) → IsOffered m → IsOffered (remove_client s m)
unfolding remove_client
remove_client-IsOffered s m v r t h = elim (Option-cases (lookup s m.clients)) [
  | inl e ↦ ground (arith, v r t)
  | inr (info, e) ↦ ground (
    arith,
    v r t,
    subscribed-update_each-remove s r t extra_topics
        (update_each (remove s) info.topics m.topic_subscribers),
    subscribed-update_each-remove s r t info.topics m.topic_subscribers,
  )
]

step-IsOffered :
    (json : JsonLibrary) (e : Event) (st : Shared)
    → IsOffered st.manager
    → IsOffered (step json e st).manager
unfolding step add_client
step-IsOffered json (Event.opens s) st v = v
step-IsOffered json (Event.reads s ec msg mode) st v =
    on_read-keeps json IsOffered s
      (λ md date m w.
        subst
          (λ lists.
            (r : ℕ) (t : String) → contains (subscribers t lists) r ≡ true → is_offered t ≡ true)
          (sym (subscribers-set_client_mode s md date m)) w)
      (add_client_topics-IsOffered s) ec msg mode st v
step-IsOffered json (Event.closes s) st v = remove_client-IsOffered s st.manager v
step-IsOffered json Event.lets_go st v = v

run-IsOffered :
    (json : JsonLibrary) (es : List Event) (st : Shared)
    → IsOffered st.manager
    → IsOffered (run json es st).manager
unfolding run
run-IsOffered json [] st v = v
run-IsOffered json (e ∷ es) st v =
    run-IsOffered json es (step json e st) (step-IsOffered json e st v)

empty_of_absent : (xs : List ℕ) → ((r : ℕ) → contains xs r ≡ false) → xs ≡ []
unfolding contains
empty_of_absent [] h = refl
empty_of_absent (x ∷ xs) h = absurd (ground (arith, h x))

-- Whatever the clients do from the start of the server on, what is broadcast to a topic that no message
-- can ask for, such as "backtest_price_" and "backtest_complete", is sent to nobody.
pub broadcast_to_topic-unheard :
    (json : JsonLibrary) (es : List Event) (st : Shared) (topic message : String)
    → st.manager ≡ init
    → is_offered topic ≡ false
    → broadcast_to_topic topic message (run json es st).manager ≡ []
unfolding send_each find_or lookup contains
broadcast_to_topic-unheard json es st topic message start closed =
    rw (broadcast_to_topic-send_each topic message (run json es st).manager)
      (ap (send_each message) (empty_of_absent _ absent))
  where
    offered : IsOffered (run json es st).manager
    offered = run-IsOffered json es st (subst IsOffered (sym start) (λ r t h. absurd (cc h)))

    absent : (r : ℕ) → is_subscriber r topic (run json es st).manager ≡ false
    absent r = ground (arith, offered r topic)

-- The topics of the backtest are such topics.
pub backtest_closed :
    (is_offered "backtest_price_" ≡ false) × (is_offered "backtest_complete" ≡ false)
unfolding is_offered
backtest_closed = (refl, refl)
