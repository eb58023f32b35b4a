-- ===== src/Session/Uniqueness.antt =====
-- No session stands twice in a topic's list of session_manager, and the registry stays in order: the
-- two facts by which a broadcast reaches a session once.
use datafeed_server.Prelude.{
  ℕ, ◌≤◌, inl, inr, String, List, [], ◌∷◌, arith, string_key, nat_key, remove, push_absent, count,
  count-remove-le, count-push_absent-le, lookup, find_or, insert_sorted, Option-cases, AscendsFrom,
  insert_sorted-AscendsFrom, erase-AscendsFrom,
}
use datafeed_server.Session.{
  SessionManager, ClientInfo, extra_topics, update_subscribers, update_each, subscribe_topic,
  subscribe_topics, add_client, remove_client, set_client_mode, add_client_topics,
  remove_client_topics, init,
}
use datafeed_server.Session.Lookups.{subscribers, subscribers-update_subscribers}

module _ (r : ℕ) where
  -- `r` stands at most once in each list.
  abbrev OnceInEach : List (String × List ℕ) → Type 0
  OnceInEach m = (t : String) → count r (subscribers t m) ≤ 1

  update_subscribers-OnceInEach :
      (f : List ℕ → List ℕ) (topic : String) (m : List (String × List ℕ))
      → ((xs : List ℕ) → count r xs ≤ 1 → count r (f xs) ≤ 1)
      → OnceInEach m
      → OnceInEach (update_subscribers f topic m)
  update_subscribers-OnceInEach f topic m keep once t =
      ground
        (arith, subscribers-update_subscribers f topic t m, keep (subscribers t m) (once t), once t)

  update_each-OnceInEach :
      (f : List ℕ → List ℕ) (topics : List String) (m : List (String × List ℕ))
      → ((xs : List ℕ) → count r xs ≤ 1 → count r (f xs) ≤ 1)
      → OnceInEach m
      → OnceInEach (update_each f topics m)
  unfolding update_each
  update_each-OnceInEach f [] m keep once = once
  update_each-OnceInEach f (topic ∷ topics) m keep once =
      update_each-OnceInEach f topics (update_subscribers f topic m) keep
        (update_subscribers-OnceInEach f topic m keep once)

  remove-keeps : (s : ℕ) (xs : List ℕ) → count r xs ≤ 1 → count r (remove s xs) ≤ 1
  remove-keeps s xs h = omega (arith, count-remove-le s r xs)

  push_absent-keeps : (s : ℕ) (xs : List ℕ) → count r xs ≤ 1 → count r (push_absent s xs) ≤ 1
  push_absent-keeps s xs h = count-push_absent-le s r xs h

  subscribe_topic-OnceInEach :
      (s : ℕ) (topic : String) (m : List (String × List ℕ))
      → OnceInEach m
      → OnceInEach (subscribe_topic s topic m)
  unfolding subscribe_topic
  subscribe_topic-OnceInEach s topic m once t = ground (
    arith,
    update_each-OnceInEach (push_absent s) extra_topics m (push_absent-keeps s) once t,
    update_subscribers-OnceInEach (push_absent s) topic m (push_absent-keeps s) once t,
  )

  subscribe_topics-OnceInEach :
      (s : ℕ) (topics : List String) (m : List (String × List ℕ))
      → OnceInEach m
      → OnceInEach (subscribe_topics s topics m)
  unfolding subscribe_topics
  subscribe_topics-OnceInEach s [] m once = once
  subscribe_topics-OnceInEach s (topic ∷ topics) m once =
      subscribe_topics-OnceInEach s topics (subscribe_topic s topic m)
        (subscribe_topic-OnceInEach s topic m once)

pub record IsUnique (m : SessionManager) : Type 0 where
  pub once : (s : ℕ) (t : String) → count s (subscribers t m.topic_subscribers) ≤ 1
  pub ordered : AscendsFrom 1 m.clients

pub init-IsUnique : IsUnique init
unfolding find_or lookup count
init-IsUnique = record { once = λ s t. omega arith; ordered = tt }

module _ (s : ℕ) (pos : 1 ≤ s) {m : SessionManager} (v : IsUnique m) where
  insertion-ordered : (info : ClientInfo) → AscendsFrom 1 (insert_sorted s info m.clients)
  insertion-ordered info = insert_sorted-AscendsFrom 1 s info m.clients pos v.ordered

  pub add_client-IsUnique : IsUnique (add_client s m)
  unfolding add_client
  add_client-IsUnique = record { once = v.once; ordered = insertion-ordered _ }

  pub set_client_mode-IsUnique : (mode date : String) → IsUnique (set_client_mode s mode date m)
  unfolding set_client_mode
  set_client_mode-IsUnique mode date = elim (Option-cases (lookup s m.clients)) [
    | inl e ↦ rw (e, set_client_mode) v
    | inr (info, e) ↦
        rw (e, set_client_mode) (record { once = v.once; ordered = insertion-ordered _ })
  ]

  pub remove_client-IsUnique : IsUnique (remove_client s m)
  unfolding remove_client
  remove_client-IsUnique = elim (Option-cases (lookup s m.clients)) [
    | inl e ↦ rw (e, remove_client) v
    | inr (info, e) ↦
        rw (e, remove_client)
          (record {
            once = λ r t.
                update_each-OnceInEach r (remove s) extra_topics
                  (update_each (remove s) info.topics m.topic_subscribers) (remove-keeps r s)
                  (update_each-OnceInEach r (remove s) info.topics m.topic_subscribers
                    (remove-keeps r s) (v.once r))
                  t;
            ordered = erase-AscendsFrom 1 s m.clients v.ordered;
          })
  ]

  pub add_client_topics-IsUnique : (topics : List String) → IsUnique (add_client_topics s topics m)
  unfolding add_client_topics
  add_client_topics-IsUnique topics = elim (Option-cases (lookup s m.clients)) [
    | inl e ↦ rw (e, add_client_topics) v
    | inr (info, e) ↦
        rw (e, add_client_topics)
          (record {
            once = λ r t. subscribe_topics-OnceInEach r s topics m.topic_subscribers (v.once r) t;
            ordered = insertion-ordered _;
          })
  ]

  pub remove_client_topics-IsUnique :
      (topics : List String) → IsUnique (remove_client_topics s topics m)
  unfolding remove_client_topics
  remove_client_topics-IsUnique topics = elim (Option-cases (lookup s m.clients)) [
    | inl e ↦ rw (e, remove_client_topics) v
    | inr (info, e) ↦
        rw (e, remove_client_topics)
          (record {
            once = λ r t.
                update_each-OnceInEach r (remove s) topics m.topic_subscribers (remove-keeps r s)
                  (v.once r) t;
            ordered = insertion-ordered _;
          })
  ]
