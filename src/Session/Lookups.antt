-- ===== src/Session/Lookups.antt =====
-- What the updates of the subscriber lists of session_manager.cpp do to each list, and what the loops
-- over topics do to a client's own list.
use datafeed_server.Prelude.{
  ℕ, ◌≡◌, refl, Bool, false, not, ◌&&◌, ◌||◌, String, List, [], ◌∷◌, if◌then◌else◌, arith, ◌==◌,
  string_key, nat_key, contains, remove, push_absent, find_or, find_or-insert, contains-remove,
  contains-push_absent, eqb,
}
use datafeed_server.Session.{
  extra_topics, update_subscribers, update_each, subscribe_topic, subscribe_topics, merge_topics,
  drop_topics,
}

-- the subscribers of a topic
abbrev pub subscribers : String → List (String × List ℕ) → List ℕ
subscribers = find_or []

pub subscribers-update_subscribers :
    (f : List ℕ → List ℕ) (topic t : String) (m : List (String × List ℕ))
    → subscribers t (update_subscribers f topic m)
      ≡ (if topic == t then f (subscribers t m) else subscribers t m)
unfolding update_subscribers
subscribers-update_subscribers f topic t m =
    ground
      (arith, find_or-insert [] topic t (f (subscribers topic m)) m, string_key.same_iff topic t)

module _ (s r : ℕ) (t : String) where
  -- Does `r` subscribe to `t`?
  abbrev subscribed : List (String × List ℕ) → Bool
  subscribed m = contains (subscribers t m) r

  pub subscribed-update_each-remove :
      (topics : List String) (m : List (String × List ℕ))
      → contains (subscribers t (update_each (remove s) topics m)) r
        ≡ (if eqb s r && contains topics t then false else contains (subscribers t m) r)
  unfolding update_each contains
  subscribed-update_each-remove [] m = ground arith
  subscribed-update_each-remove (topic ∷ topics) m = ground (
    arith,
    subscribed-update_each-remove topics (update_subscribers (remove s) topic m),
    subscribers-update_subscribers (remove s) topic t m,
    contains-remove s r (subscribers t m),
  )

  pub subscribed-update_each-push_absent :
      (topics : List String) (m : List (String × List ℕ))
      → contains (subscribers t (update_each (push_absent s) topics m)) r
        ≡ ((eqb s r && contains topics t) || contains (subscribers t m) r)
  unfolding update_each contains
  subscribed-update_each-push_absent [] m = ground arith
  subscribed-update_each-push_absent (topic ∷ topics) m = ground (
    arith,
    subscribed-update_each-push_absent topics (update_subscribers (push_absent s) topic m),
    subscribers-update_subscribers (push_absent s) topic t m,
    contains-push_absent s r (subscribers t m),
  )

-- What a subscription to `topic` covers: itself, or the extra topics if it is "all_".
abbrev pub covers : String → String → Bool
covers topic t = if topic == "all_" then contains extra_topics t else topic == t

abbrev pub covered_by : List String → String → Bool
covered_by [] t = false
covered_by (topic ∷ topics) t = covers topic t || covered_by topics t

pub subscribed-subscribe_topics :
    (s r : ℕ) (t : String) (topics : List String) (m : List (String × List ℕ))
    → contains (subscribers t (subscribe_topics s topics m)) r
      ≡ ((eqb s r && covered_by topics t) || contains (subscribers t m) r)
unfolding subscribe_topics subscribe_topic
subscribed-subscribe_topics s r t [] m = ground arith
subscribed-subscribe_topics s r t (topic ∷ topics) m = ground (
  arith,
  subscribed-subscribe_topics s r t topics (subscribe_topic s topic m),
  subscribed-update_each-push_absent s r t extra_topics m,
  subscribers-update_subscribers (push_absent s) topic t m,
  contains-push_absent s r (subscribers t m),
)

pub contains-merge_topics :
    (topics own : List String) (t : String)
    → contains (merge_topics topics own) t ≡ (contains topics t || contains own t)
unfolding merge_topics contains
contains-merge_topics [] own t = refl
contains-merge_topics (topic ∷ topics) own t = ground (
  arith,
  contains-merge_topics topics (push_absent topic own) t,
  contains-push_absent topic t own,
)

pub contains-drop_topics :
    (topics own : List String) (t : String)
    → contains (drop_topics topics own) t ≡ (not (contains topics t) && contains own t)
unfolding drop_topics contains
contains-drop_topics [] own t = refl
contains-drop_topics (topic ∷ topics) own t =
    ground (arith, contains-drop_topics topics (remove topic own) t, contains-remove topic t own)
