-- ===== src/Metrics/StateManager/Accounts.antt =====
-- Where each snapshot of metrics/state_manager.cpp goes: into the ring, and into exactly one summary.
use mathlib.Core.List.{append_assoc, append-nil}
use datafeed_server.Prelude.{
  ℕ, ◌≡◌, refl, sym, ap, subst, ◌∙◌, Bool, true, false, List, [], ◌∷◌, ◌++◌, if◌then◌else◌, leb,
  ◌-◌, arith,
}
use datafeed_server.Metrics.RingBuffer.{for_each}
use datafeed_server.Metrics.RingBuffer.Invariant.{IsValid, push-IsValid}
use datafeed_server.Metrics.RingBuffer.Contents.{keep_last}
use datafeed_server.Metrics.RingBuffer.History.{for_each-push, keep_last-append}
use datafeed_server.Metrics.StateManager.{
  Aggregation, Event, ring_capacity, StateManager, take_snapshot, close_interval, get_live_snapshot,
}

module _ (aggregation : Aggregation) where
  open aggregation use {
    Snapshot, blank, Aggregator, fresh, add_snapshot, produce_summary, reset, Alike,
    add_snapshot-Alike, produce_summary-Alike, reset-Alike,
  }

  -- the aggregator that was given snapshots, in order
  unfoldable pub aggregate : List Snapshot → Aggregator → Aggregator
  aggregate [] a = a
  aggregate (s ∷ ss) a = aggregate ss (add_snapshot s a)

  aggregate-append :
      (ss : List Snapshot) (s : Snapshot) (a : Aggregator)
      → aggregate (ss ++ (s ∷ [])) a ≡ add_snapshot s (aggregate ss a)
  unfolding aggregate
  aggregate-append [] s a = refl
  aggregate-append (t ∷ ss) s a = aggregate-append ss s (add_snapshot t a)

  -- Closed intervals, with whether the summary was delivered: all their snapshots, and the summaries.
  unfoldable pub all_of : List (Bool × List Snapshot) → List Snapshot
  all_of [] = []
  all_of ((delivered, ss) ∷ rest) = ss ++ all_of rest

  unfoldable pub summaries_of : List (Bool × List Snapshot) → List Snapshot
  summaries_of [] = []
  summaries_of ((delivered, ss) ∷ rest) =
      if delivered
      then produce_summary (aggregate ss fresh) ∷ summaries_of rest
      else summaries_of rest

  all_of-append :
      (closed : List (Bool × List Snapshot)) (b : Bool) (ss : List Snapshot)
      → all_of (closed ++ ((b, ss) ∷ [])) ≡ all_of closed ++ ss
  unfolding all_of
  all_of-append [] b ss = append-nil ss
  all_of-append ((d, ts) ∷ closed) b ss =
      ap (λ l. ts ++ l) (all_of-append closed b ss) ∙ sym (append_assoc ts (all_of closed) ss)

  summaries_of-append :
      (closed : List (Bool × List Snapshot)) (b : Bool) (ss : List Snapshot)
      → summaries_of (closed ++ ((b, ss) ∷ [])) ≡ (
          if b
          then summaries_of closed ++ (produce_summary (aggregate ss fresh) ∷ [])
          else summaries_of closed)
  unfolding summaries_of
  summaries_of-append [] true ss = refl
  summaries_of-append [] false ss = refl
  summaries_of-append ((true, ts) ∷ closed) b ss = ground (arith, summaries_of-append closed b ss)
  summaries_of-append ((false, ts) ∷ closed) b ss = summaries_of-append closed b ss

  -- the last snapshot, or the blank one
  unfoldable pub last_of : List Snapshot → Snapshot
  last_of [] = blank
  last_of (s ∷ []) = s
  last_of (s ∷ t ∷ ss) = last_of (t ∷ ss)

  last_of-append : (ss : List Snapshot) (s : Snapshot) → last_of (ss ++ (s ∷ [])) ≡ s
  unfolding last_of
  last_of-append [] s = refl
  last_of-append (t ∷ []) s = refl
  last_of-append (t ∷ u ∷ ss) s = last_of-append (u ∷ ss) s

  -- What the events alone say: whether the manager runs, since when the present interval, and whether a callback
  -- is set; the closed intervals, with whether the callback was set then; the snapshots of the present one;
  -- and all snapshots.
  pub record Ledger : Type 0 where
    pub running : Bool
    pub since : ℕ
    pub callback : Bool
    pub closed : List (Bool × List Snapshot)
    pub pending : List Snapshot
    pub taken : List Snapshot

  abbrev pub empty_ledger : Ledger
  empty_ledger = record {
    running = false;
    since = 0;
    callback = false;
    closed = [];
    pending = [];
    taken = [];
  }

  -- a snapshot joins the present interval, and closes it 15 minutes after its start
  unfoldable pub enter_snapshot : Snapshot → ℕ → ℕ → Ledger → Ledger
  enter_snapshot s now restart l =
      if leb 900000000000 (now - l.since)
      then record l {
        since = restart;
        closed = l.closed ++ ((l.callback, l.pending ++ (s ∷ [])) ∷ []);
        pending = [];
        taken = l.taken ++ (s ∷ []);
      }
      else record l { pending = l.pending ++ (s ∷ []); taken = l.taken ++ (s ∷ []) }

  unfoldable pub enter : Event aggregation → Ledger → Ledger
  unfolding enter_snapshot
  enter (Event.start now) l = if l.running then l else record l { running = true; since = now }
  enter Event.stop l = record l { running = false }
  enter (Event.set_callback b) l = record l { callback = b }
  enter (Event.round s now restart) l = if l.running then enter_snapshot s now restart l else l

  unfoldable pub enter_all : List (Event aggregation) → Ledger → Ledger
  enter_all [] l = l
  enter_all (e ∷ es) l = enter_all es (enter e l)

  -- The manager holds what the ledger says.
  pub record Accounts (m : StateManager aggregation) (l : Ledger) : Type 0 where
    pub running : m.running ≡ l.running
    pub since : m.interval_start ≡ l.since
    pub callback : m.has_callback ≡ l.callback
    pub whole : all_of l.closed ++ l.pending ≡ l.taken
    pub running_state : Alike m.aggregator (aggregate l.pending fresh)
    pub delivered : m.summaries ≡ summaries_of l.closed
    pub ring_valid : IsValid ring_capacity blank m.ring
    pub live : get_live_snapshot aggregation m ≡ last_of l.taken
    pub recent : for_each ring_capacity blank m.ring ≡ keep_last ring_capacity l.taken

  pub take_snapshot-Accounts :
      (s : Snapshot) (m : StateManager aggregation) (l : Ledger)
      → Accounts m l
      → Accounts
          (take_snapshot aggregation s m)
          (record l { pending = l.pending ++ (s ∷ []); taken = l.taken ++ (s ∷ []) })
  unfolding take_snapshot
  take_snapshot-Accounts s m l h = record {
    running = h.running;
    since = h.since;
    callback = h.callback;
    whole =
        sym (append_assoc (all_of l.closed) l.pending (s ∷ [])) ∙ ap (λ l'. l' ++ (s ∷ [])) h.whole;
    running_state =
        subst (Alike (add_snapshot s m.aggregator)) (sym (aggregate-append l.pending s fresh))
          (add_snapshot-Alike s m.aggregator (aggregate l.pending fresh) h.running_state);
    delivered = h.delivered;
    ring_valid = push-IsValid ring_capacity blank s m.ring h.ring_valid;
    live = unfold get_live_snapshot in sym (last_of-append l.taken s);
    recent =
        for_each-push ring_capacity blank s m.ring h.ring_valid
        ∙ ap (λ l'. keep_last ring_capacity (l' ++ (s ∷ []))) h.recent
        ∙ keep_last-append ring_capacity blank l.taken (s ∷ []);
  }

  pub close_interval-Accounts :
      (restart : ℕ) (m : StateManager aggregation) (l : Ledger)
      → Accounts m l
      → Accounts (close_interval aggregation restart m) (record l {
        since = restart;
        closed = l.closed ++ ((l.callback, l.pending) ∷ []);
        pending = [];
      })
  unfolding close_interval aggregate
  close_interval-Accounts restart m l h = record {
    running = h.running;
    since = refl;
    callback = h.callback;
    whole =
        append-nil (all_of (l.closed ++ ((l.callback, l.pending) ∷ [])))
        ∙ all_of-append l.closed l.callback l.pending
        ∙ h.whole;
    running_state = reset-Alike m.aggregator;
    delivered = ground (
      arith,
      h.delivered,
      h.callback,
      produce_summary-Alike m.aggregator (aggregate l.pending fresh) h.running_state,
      summaries_of-append l.closed l.callback l.pending,
    );
    ring_valid = h.ring_valid;
    live = unfold get_live_snapshot in h.live;
    recent = h.recent;
  }
