-- ===== src/Session/Consistency.antt =====
-- The link between the two maps of session_manager: who is in a topic's list is a registered client
-- that subscribed to it. So a session that is removed is left in no list.
use datafeed_server.Prelude.{
  ℕ, ◌≡◌, refl, Bool, true, false, ◌||◌, String, List, [], ◌∷◌, none, some, arith, ◌≢◌, inl, inr,
  Option-cases, string_key, nat_key, contains, remove, lookup, lookup-insert_sorted, lookup-erase,
  find_or,
}
use datafeed_server.Session.{
  SessionManager, ClientInfo, extra_topics, update_each, merge_topics, drop_topics, add_client,
  remove_client, set_client_mode, add_client_topics, remove_client_topics, init,
}
use datafeed_server.Session.Lookups.{
  subscribers, covered_by, subscribed-update_each-remove, subscribed-subscribe_topics,
  contains-merge_topics, contains-drop_topics,
}

-- Is `s` in the list of `t`?
abbrev pub is_subscriber : ℕ → String → SessionManager → Bool
is_subscriber s t m = contains (subscribers t m.topic_subscribers) s

abbrev pub accounts : ClientInfo → String → Bool
accounts info t = contains info.topics t || contains extra_topics t

-- Is `s` registered, with a topic that accounts for its place in the list of `t`?
abbrev pub accounted : ℕ → String → SessionManager → Bool
accounted s t m = elim (lookup s m.clients) [ none ↦ false | some info ↦ accounts info t ]

pub record IsConsistent (m : SessionManager) : Type 0 where
  pub accounted_for : (s : ℕ) (t : String) → is_subscriber s t m ≡ true → accounted s t m ≡ true

pub init-IsConsistent : IsConsistent init
unfolding find_or lookup contains
init-IsConsistent = record { accounted_for = λ s t h. ground arith }

-- What a subscription covers is accounted for by the merged topics.
covered_by-accounts :
    (topics : List String) (t : String)
    → covered_by topics t ≡ true
    → (contains topics t || contains extra_topics t) ≡ true
unfolding contains
covered_by-accounts [] t h = ground arith
covered_by-accounts (topic ∷ topics) t h = ground (arith, covered_by-accounts topics t)

pub add_client-IsConsistent :
    (s : ℕ) {m : SessionManager}
    → lookup s m.clients ≡ none
    → IsConsistent m
    → IsConsistent (add_client s m)
unfolding add_client
add_client-IsConsistent s {m} fresh v = record {
  accounted_for = λ r t h. ground (
    arith,
    v.accounted_for r t,
    lookup-insert_sorted s r
        (record { session = s; mode = "unknown"; backtest_date = ""; topics = [] }) m.clients,
  );
}

-- Each method, by whether the session is registered.
module _ (s : ℕ) {m : SessionManager} (v : IsConsistent m) where
  pub set_client_mode-IsConsistent :
      (mode date : String) → IsConsistent (set_client_mode s mode date m)
  unfolding set_client_mode
  set_client_mode-IsConsistent mode date = elim (Option-cases (lookup s m.clients)) [
    | inl e ↦ rw (e, set_client_mode) v
    | inr (info, e) ↦
        rw (e, set_client_mode)
          (record {
            accounted_for = λ r t h. ground (
              arith,
              v.accounted_for r t h,
              lookup-insert_sorted s r (record info { mode = mode; backtest_date = date })
                  m.clients,
            );
          })
  ]

  pub remove_client-IsConsistent : IsConsistent (remove_client s m)
  unfolding remove_client
  remove_client-IsConsistent = elim (Option-cases (lookup s m.clients)) [
    | inl e ↦ rw (e, remove_client) v
    | inr (info, e) ↦
        rw (e, remove_client)
          (record {
            accounted_for = λ r t h. ground (
              arith,
              v.accounted_for r t,
              lookup-erase s r m.clients,
              subscribed-update_each-remove s r t extra_topics
                  (update_each (remove s) info.topics m.topic_subscribers),
              subscribed-update_each-remove s r t info.topics m.topic_subscribers,
            );
          })
  ]

  pub add_client_topics-IsConsistent :
      (topics : List String) → IsConsistent (add_client_topics s topics m)
  unfolding add_client_topics
  add_client_topics-IsConsistent topics = elim (Option-cases (lookup s m.clients)) [
    | inl e ↦ rw (e, add_client_topics) v
    | inr (info, e) ↦
        rw (e, add_client_topics)
          (record {
            accounted_for = λ r t h. ground (
              arith,
              v.accounted_for r t,
              lookup-insert_sorted s r (record info { topics = merge_topics topics info.topics })
                  m.clients,
              subscribed-subscribe_topics s r t topics m.topic_subscribers,
              contains-merge_topics topics info.topics t,
              covered_by-accounts topics t,
            );
          })
  ]

  pub remove_client_topics-IsConsistent :
      (topics : List String) → IsConsistent (remove_client_topics s topics m)
  unfolding remove_client_topics
  remove_client_topics-IsConsistent topics = elim (Option-cases (lookup s m.clients)) [
    | inl e ↦ rw (e, remove_client_topics) v
    | inr (info, e) ↦
        rw (e, remove_client_topics)
          (record {
            accounted_for = λ r t h. ground (
              arith,
              v.accounted_for r t,
              lookup-insert_sorted s r (record info { topics = drop_topics topics info.topics })
                  m.clients,
              subscribed-update_each-remove s r t topics m.topic_subscribers,
              contains-drop_topics topics info.topics t,
            );
          })
  ]

  -- In a registry that is consistent, as each is that calls lead to from the empty one, the session is after
  -- `remove_client` in no topic's list and is not registered, and every other session is in the lists that it was
  -- in before.
  pub remove_client-leaves_none :
      (r : ℕ) (t : String)
      → (is_subscriber s t (remove_client s m) ≡ false)
        × (lookup s (remove_client s m).clients ≡ none)
        × (r ≢ s → is_subscriber r t (remove_client s m) ≡ is_subscriber r t m)
  unfolding remove_client
  remove_client-leaves_none r t = elim (Option-cases (lookup s m.clients)) [
    | inl e ↦ rw (e, remove_client) (ground (arith, v.accounted_for s t), e, λ ne. refl)
    | inr (info, e) ↦
        rw (e, remove_client)
          (
            ground (
              arith,
              v.accounted_for s t,
              subscribed-update_each-remove s s t extra_topics
                  (update_each (remove s) info.topics m.topic_subscribers),
              subscribed-update_each-remove s s t info.topics m.topic_subscribers,
            ),
            ground (arith, lookup-erase s s m.clients),
            λ ne. ground (
              arith,
              subscribed-update_each-remove s r t extra_topics
                  (update_each (remove s) info.topics m.topic_subscribers),
              subscribed-update_each-remove s r t info.topics m.topic_subscribers,
            ),
          )
  ]
