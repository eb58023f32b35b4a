-- ===== src/Session/Histories.antt =====
-- Sequences of calls of session_manager's methods, as the websocket sessions make them.
use datafeed_server.Prelude.{
  ℕ, ◌≤◌, ◌≡◌, String, List, [], ◌∷◌, none, lookup, nat_key, true, has_key, arith,
}
use datafeed_server.Session.{
  SessionManager, init, add_client, remove_client, set_client_mode, add_client_topics,
  remove_client_topics,
}
use datafeed_server.Session.Consistency.{
  IsConsistent, is_subscriber, init-IsConsistent, add_client-IsConsistent,
  set_client_mode-IsConsistent, remove_client-IsConsistent, add_client_topics-IsConsistent,
  remove_client_topics-IsConsistent,
}
use datafeed_server.Session.Uniqueness.{
  IsUnique, init-IsUnique, add_client-IsUnique, set_client_mode-IsUnique, remove_client-IsUnique,
  add_client_topics-IsUnique, remove_client_topics-IsUnique,
}

-- Each call by a session: the constructor and the destructor of websocket_session, a change of mode,
-- a subscription and its end.
pub data Call : Type 0 where
  connect disconnect : Call
  change_mode : String → String → Call
  subscribe unsubscribe : List String → Call

unfoldable pub step : ℕ × Call → SessionManager → SessionManager
step (s, Call.connect) m = add_client s m
step (s, Call.disconnect) m = remove_client s m
step (s, Call.change_mode mode date) m = set_client_mode s mode date m
step (s, Call.subscribe topics) m = add_client_topics s topics m
step (s, Call.unsubscribe topics) m = remove_client_topics s topics m

unfoldable pub run : List (ℕ × Call) → SessionManager → SessionManager
run [] m = m
run (c ∷ cs) m = run cs (step c m)

-- What the allocator promises: an address is never null, and a new session does not get that of a
-- registered one.
abbrev pub Allowed : ℕ × Call → SessionManager → Type 0
Allowed (s, Call.connect) m = (1 ≤ s) × (lookup s m.clients ≡ none)
Allowed (s, c) m = 1 ≤ s

abbrev pub AllAllowed : List (ℕ × Call) → SessionManager → Type 0
AllAllowed [] m = Unit {0}
AllAllowed (c ∷ cs) m = Allowed c m × AllAllowed cs (step c m)

pub record IsWellFormed (m : SessionManager) : Type 0 where
  pub consistent : IsConsistent m
  pub unique : IsUnique m

pub step-IsWellFormed :
    (c : ℕ × Call) (m : SessionManager) → Allowed c m → IsWellFormed m → IsWellFormed (step c m)
unfolding step
step-IsWellFormed (s, Call.connect) m h v = record {
  consistent = add_client-IsConsistent s h.1 v.consistent;
  unique = add_client-IsUnique s h.0 v.unique;
}
step-IsWellFormed (s, Call.disconnect) m h v = record {
  consistent = remove_client-IsConsistent s v.consistent;
  unique = remove_client-IsUnique s h v.unique;
}
step-IsWellFormed (s, Call.change_mode mode date) m h v = record {
  consistent = set_client_mode-IsConsistent s v.consistent mode date;
  unique = set_client_mode-IsUnique s h v.unique mode date;
}
step-IsWellFormed (s, Call.subscribe topics) m h v = record {
  consistent = add_client_topics-IsConsistent s v.consistent topics;
  unique = add_client_topics-IsUnique s h v.unique topics;
}
step-IsWellFormed (s, Call.unsubscribe topics) m h v = record {
  consistent = remove_client_topics-IsConsistent s v.consistent topics;
  unique = remove_client_topics-IsUnique s h v.unique topics;
}

run_from-IsWellFormed :
    (cs : List (ℕ × Call)) (m : SessionManager)
    → AllAllowed cs m
    → IsWellFormed m
    → IsWellFormed (run cs m)
unfolding run
run_from-IsWellFormed [] m h v = v
run_from-IsWellFormed (c ∷ cs) m h v =
    run_from-IsWellFormed cs (step c m) h.1 (step-IsWellFormed c m h.0 v)

-- From the empty registry every sequence of allowed calls keeps the registry well-formed: whoever is in
-- a topic's list is registered and has that topic, or the topic is one of those that "all_" stands
-- for; nobody is in a list twice; and the addresses of the registered sessions ascend.
pub run-IsWellFormed : (cs : List (ℕ × Call)) → AllAllowed cs init → IsWellFormed (run cs init)
run-IsWellFormed cs h =
    run_from-IsWellFormed cs init h
      (record { consistent = init-IsConsistent; unique = init-IsUnique })

-- The list of no topic holds the address of a session that is not registered.
pub subscriber-registered :
    (s : ℕ) (t : String) {m : SessionManager}
    → IsWellFormed m
    → is_subscriber s t m ≡ true
    → has_key s m.clients ≡ true
subscriber-registered s t v h = ground (arith, v.consistent.accounted_for s t h)
