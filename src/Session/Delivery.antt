-- ===== src/Session/Delivery.antt =====
-- To whom session_manager sends, and what each method changes for the later broadcasts.
use datafeed_server.Prelude.{
  ℕ, suc, ◌≤◌, ◌≡◌, refl, inl, inr, Bool, true, false, ◌&&◌, ◌||◌, String, List, [], ◌∷◌, none,
  some, if◌then◌else◌, arith, eqb, ◌==◌, string_key, nat_key, contains, count, count_absent,
  count_present, lookup, find_or, lookup-insert_sorted, has_key, keys, ◌∙◌, ap, Bool-cases,
  AscendsFrom, count-keys, lookup_below,
}
use datafeed_server.Session.{
  SessionManager, ClientInfo, extra_topics, send_each, broadcast_to_topic, broadcast_all,
  add_client_topics, remove_client_topics, set_client_mode, clients_with_mode, get_clients_by_mode,
  merge_topics,
}
use datafeed_server.Session.Lookups.{
  subscribers, covered_by, subscribed-subscribe_topics, subscribed-update_each-remove,
}
use datafeed_server.Session.Consistency.{is_subscriber}
use datafeed_server.Session.Uniqueness.{set_client_mode-IsUnique}
use datafeed_server.Session.Histories.{IsWellFormed, subscriber-registered}

abbrev pub receivers : List (ℕ × String) → List ℕ
receivers [] = []
receivers ((s, message) ∷ out) = s ∷ receivers out

-- Every message of the output is this one.
abbrev pub AllCarry : String → List (ℕ × String) → Type 0
AllCarry message [] = Unit {0}
AllCarry message ((s, sent) ∷ out) = (sent ≡ message) × AllCarry message out

count-receivers-send_each :
    (s : ℕ) (message : String) (xs : List ℕ)
    → 1 ≤ s
    → count s (receivers (send_each message xs)) ≡ count s xs
unfolding count send_each
count-receivers-send_each s message [] h = refl
count-receivers-send_each s message (x ∷ xs) h =
    ground (arith, count-receivers-send_each s message xs h)

send_each-AllCarry : (message : String) (xs : List ℕ) → AllCarry message (send_each message xs)
unfolding send_each
send_each-AllCarry message [] = tt
send_each-AllCarry message (x ∷ xs) = ground (arith, send_each-AllCarry message xs)

pub broadcast_to_topic-send_each :
    (topic message : String) (m : SessionManager)
    → broadcast_to_topic topic message m ≡ send_each message (subscribers topic m.topic_subscribers)
unfolding broadcast_to_topic find_or send_each
broadcast_to_topic-send_each topic message m = ground arith

-- In a well-formed registry `broadcast_to_topic` sends the message once to each subscriber of the
-- topic, all of whom are registered, and sends nothing to anybody else.
pub broadcast_to_topic-reaches :
    (s : ℕ) (topic message : String) {m : SessionManager}
    → 1 ≤ s
    → IsWellFormed m
    → (count s (receivers (broadcast_to_topic topic message m))
        ≡ (if is_subscriber s topic m then 1 else 0))
      × (is_subscriber s topic m ≡ true → has_key s m.clients ≡ true)
      × AllCarry message (broadcast_to_topic topic message m)
broadcast_to_topic-reaches s topic message {m} h v =
    let listed = subscribers topic m.topic_subscribers in
    rw (broadcast_to_topic-send_each topic message m) (
      ground (
        arith,
        count-receivers-send_each s message listed h,
        v.unique.once s topic,
        count_absent s listed,
        count_present s listed,
      ),
      subscriber-registered s topic v,
      send_each-AllCarry message listed,
    )

-- In a well-formed registry `broadcast_all` sends the message once to each registered session, and
-- sends nothing to anybody else.
pub broadcast_all-reaches :
    (s : ℕ) (message : String) {m : SessionManager}
    → 1 ≤ s
    → IsWellFormed m
    → (count s (receivers (broadcast_all message m)) ≡ (if has_key s m.clients then 1 else 0))
      × AllCarry message (broadcast_all message m)
unfolding broadcast_all
broadcast_all-reaches s message {m} h v = (
  count-receivers-send_each s message (keys m.clients) h
      ∙ count-keys 1 s m.clients v.unique.ordered,
  send_each-AllCarry message (keys m.clients),
)

module _ (s : ℕ) (m : SessionManager) {info : ClientInfo}
    (known : lookup s m.clients ≡ some info) where
  -- Of a registered session, `add_client_topics` adds to the subscribers of a topic that session, if one
  -- of the topics covers it ("all_" covers the five extra topics and not itself), and nobody else.
  pub add_client_topics-subscribes :
      (r : ℕ) (t : String) (topics : List String)
      → is_subscriber r t (add_client_topics s topics m)
        ≡ ((eqb s r && covered_by topics t) || is_subscriber r t m)
  unfolding add_client_topics
  add_client_topics-subscribes r t topics =
      rw (known, add_client_topics) (subscribed-subscribe_topics s r t topics m.topic_subscribers)

  -- Of a registered session, `remove_client_topics` takes that session out of the lists of exactly the
  -- given topics, and nobody else out of any.
  pub remove_client_topics-unsubscribes :
      (r : ℕ) (t : String) (topics : List String)
      → is_subscriber r t (remove_client_topics s topics m)
        ≡ (if eqb s r && contains topics t then false else is_subscriber r t m)
  unfolding remove_client_topics
  remove_client_topics-unsubscribes r t topics =
      rw (known, remove_client_topics)
        (subscribed-update_each-remove s r t topics m.topic_subscribers)

  pub lookup-add_client_topics :
      (topics : List String)
      → lookup s (add_client_topics s topics m).clients
        ≡ some (record info { topics = merge_topics topics info.topics })
  unfolding add_client_topics
  lookup-add_client_topics topics =
      rw (known, add_client_topics)
        (ground (
          arith,
          lookup-insert_sorted s s (record info { topics = merge_topics topics info.topics })
              m.clients,
        ))

  -- `set_client_mode` files a registered session under the new mode, and under no other.
  pub lookup-set_client_mode :
      (r : ℕ) (mode date : String)
      → lookup r (set_client_mode s mode date m).clients ≡ (
          if eqb s r
          then some (record info { mode = mode; backtest_date = date })
          else lookup r m.clients)
  unfolding set_client_mode
  lookup-set_client_mode r mode date =
      rw (known, set_client_mode)
        (lookup-insert_sorted s r (record info { mode = mode; backtest_date = date }) m.clients)

-- "all_" is not among the topics that it stands for.
all-not-extra : (t : String) → contains extra_topics t ≡ true → ("all_" == t) ≡ false
unfolding extra_topics contains
all-not-extra t h = elim (Bool-cases ("all_" == t)) [
  | inl e ↦ absurd (cc (h, ap (contains extra_topics) ((string_key.same_iff "all_" t).0 e)))
  | inr e ↦ e
]

-- The end of a subscription to "all_" does not undo it: a registered session that subscribes to "all_"
-- and then unsubscribes from "all_" still stands in the list of each of the five extra topics.
pub unsubscribe_all-keeps_extra_topics :
    (s : ℕ) (m : SessionManager) {info : ClientInfo} (t : String)
    → lookup s m.clients ≡ some info
    → contains extra_topics t ≡ true
    → is_subscriber s t (remove_client_topics s ("all_" ∷ []) (add_client_topics s ("all_" ∷ []) m))
      ≡ true
unfolding contains
unsubscribe_all-keeps_extra_topics s m t known extra =
    let m' = add_client_topics s ("all_" ∷ []) m in
    ground (
      arith,
      remove_client_topics-unsubscribes s m' (lookup-add_client_topics s m known ("all_" ∷ [])) s t
          ("all_" ∷ []),
      add_client_topics-subscribes s m known s t ("all_" ∷ []),
      all-not-extra t extra,
    )

-- Is this the session of an entry with this mode?
abbrev pub has_mode : String → ℕ → SessionManager → Bool
has_mode mode r m = elim (lookup r m.clients) [ none ↦ false | some info ↦ info.mode == mode ]

contains-clients_with_mode :
    (b r : ℕ) (mode : String) (cs : List (ℕ × ClientInfo))
    → AscendsFrom b cs
    → contains (clients_with_mode mode cs) r
      ≡ (elim (lookup r cs) [ none ↦ false | some info ↦ info.mode == mode ])
unfolding clients_with_mode contains lookup
contains-clients_with_mode b r mode [] h = refl
contains-clients_with_mode b r mode ((j, info) ∷ cs) h =
    ground (arith, contains-clients_with_mode (suc j) r mode cs h.1, lookup_below (suc j) r cs h.1)

-- In a well-formed registry, after `set_client_mode` of a registered session `get_clients_by_mode`
-- returns that session for its new mode and for no other, and any other session as before.
pub get_clients_by_mode-set_client_mode :
    (s : ℕ) (m : SessionManager) {info : ClientInfo} (r : ℕ) (mode date asked : String)
    → 1 ≤ s
    → IsWellFormed m
    → lookup s m.clients ≡ some info
    → contains (get_clients_by_mode asked (set_client_mode s mode date m)) r
      ≡ (if eqb s r then mode == asked else contains (get_clients_by_mode asked m) r)
unfolding get_clients_by_mode
get_clients_by_mode-set_client_mode s m r mode date asked h v known = ground (
  arith,
  contains-clients_with_mode 1 r asked (set_client_mode s mode date m).clients
      (set_client_mode-IsUnique s h v.unique mode date).ordered,
  contains-clients_with_mode 1 r asked m.clients v.unique.ordered,
  lookup-set_client_mode s m known r mode date,
)
