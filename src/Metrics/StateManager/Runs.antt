-- ===== src/Metrics/StateManager/Runs.antt =====
-- What metrics/state_manager.cpp has done with the snapshots after any starts, stops and rounds.
use datafeed_server.Prelude.{
  ℕ, ◌-◌, ◌≡◌, refl, ap, ◌∙◌, subst, inl, inr, Bool, true, false, List, [], ◌∷◌, ◌++◌,
  if◌then◌else◌, leb, arith, Bool-cases,
}
use datafeed_server.Metrics.RingBuffer.{for_each, init as empty_ring}
use datafeed_server.Metrics.RingBuffer.Invariant.{init-IsValid}
use datafeed_server.Metrics.StateManager.{
  Aggregation, ring_capacity, StateManager, init, Event, start_at, take_snapshot, is_over,
  run_round, step, run, get_live_snapshot,
}
use datafeed_server.Metrics.StateManager.Accounts.{
  Accounts, Ledger, empty_ledger, enter_snapshot, enter, enter_all, aggregate, all_of, summaries_of,
  last_of, take_snapshot-Accounts, close_interval-Accounts,
}

module _ (aggregation : Aggregation) where
  open aggregation use {Snapshot, blank, fresh, Alike_refl}

  is_over_lem : (now since : ℕ) → is_over aggregation now since ≡ leb 900000000000 (now - since)
  unfolding is_over
  is_over_lem now since = ground arith

  run_round-Accounts :
      (s : Snapshot) (now restart : ℕ) (m : StateManager aggregation) (l : Ledger aggregation)
      → Accounts aggregation m l
      → Accounts aggregation
          (run_round aggregation s now restart m)
          (enter_snapshot aggregation s now restart l)
  unfolding run_round enter_snapshot
  run_round-Accounts s now restart m l h =
      let taken = take_snapshot-Accounts aggregation s m l h in
      let over : is_over aggregation now m.interval_start ≡ leb 900000000000 (now - l.since) =
        is_over_lem now m.interval_start ∙ ap (λ t. leb 900000000000 (now - t)) h.since in
      elim (Bool-cases (leb 900000000000 (now - l.since))) [
        | inl e ↦
            rw (over, e)
              (close_interval-Accounts aggregation restart (take_snapshot aggregation s m)
                (record l { pending = l.pending ++ (s ∷ []); taken = l.taken ++ (s ∷ []) }) taken)
        | inr e ↦ rw (over, e) taken
      ]

  if-Accounts :
      (b c : Bool) {m' m : StateManager aggregation} {l' l : Ledger aggregation}
      → b ≡ c
      → Accounts aggregation m' l'
      → Accounts aggregation m l
      → Accounts aggregation (if b then m' else m) (if c then l' else l)
  if-Accounts true c {m'} {m} {l'} {l} e h' h =
      subst (λ d. Accounts aggregation m' (if d then l' else l)) e h'
  if-Accounts false c {m'} {m} {l'} {l} e h' h =
      subst (λ d. Accounts aggregation m (if d then l' else l)) e h

  step-Accounts :
      (e : Event aggregation) (m : StateManager aggregation) (l : Ledger aggregation)
      → Accounts aggregation m l
      → Accounts aggregation (step aggregation e m) (enter aggregation e l)
  unfolding step enter start_at
  step-Accounts (Event.start now) m l h = if-Accounts m.running l.running h.running h (record {
    running = refl;
    since = refl;
    callback = h.callback;
    whole = h.whole;
    running_state = h.running_state;
    delivered = h.delivered;
    ring_valid = h.ring_valid;
    live = unfold get_live_snapshot in h.live;
    recent = h.recent;
  })
  step-Accounts Event.stop m l h = record {
    running = refl;
    since = h.since;
    callback = h.callback;
    whole = h.whole;
    running_state = h.running_state;
    delivered = h.delivered;
    ring_valid = h.ring_valid;
    live = unfold get_live_snapshot in h.live;
    recent = h.recent;
  }
  step-Accounts (Event.set_callback b) m l h = record {
    running = h.running;
    since = h.since;
    callback = refl;
    whole = h.whole;
    running_state = h.running_state;
    delivered = h.delivered;
    ring_valid = h.ring_valid;
    live = unfold get_live_snapshot in h.live;
    recent = h.recent;
  }
  step-Accounts (Event.round s now restart) m l h =
      if-Accounts m.running l.running h.running (run_round-Accounts s now restart m l h) h

  run-Accounts :
      (es : List (Event aggregation)) (m : StateManager aggregation) (l : Ledger aggregation)
      → Accounts aggregation m l
      → Accounts aggregation (run aggregation es m) (enter_all aggregation es l)
  unfolding run enter_all
  run-Accounts [] m l h = h
  run-Accounts (e ∷ es) m l h =
      run-Accounts es (step aggregation e m) (enter aggregation e l) (step-Accounts e m l h)

  init-Accounts : Accounts aggregation (init aggregation) (empty_ledger aggregation)
  unfolding init all_of summaries_of aggregate
  init-Accounts = record {
    running = refl;
    since = refl;
    callback = refl;
    whole = refl;
    running_state = Alike_refl fresh;
    delivered = refl;
    ring_valid = init-IsValid ring_capacity blank (omega arith) (omega arith);
    live = unfold get_live_snapshot last_of in refl;
    recent = unfold for_each empty_ring in refl;
  }

  -- From a new manager on, whatever is started, stopped and set, the manager holds what the events say: each round
  -- of the running manager puts its snapshot into the present interval, and closes the interval, this
  -- snapshot included, 15 minutes or more after its start; for each interval that closes while a callback
  -- is set, the callback is given the summary of exactly its snapshots, in order, and it is called for no
  -- other; the aggregator is like a new one that was given the snapshots of the present interval; the closed
  -- intervals and the present one are, in order, all snapshots, so none is lost; the live snapshot is the
  -- last one; and the ring holds the last 900.
  pub run-init-Accounts :
      (es : List (Event aggregation))
      → Accounts aggregation
          (run aggregation es (init aggregation))
          (enter_all aggregation es (empty_ledger aggregation))
  run-init-Accounts es = run-Accounts es (init aggregation) (empty_ledger aggregation) init-Accounts
