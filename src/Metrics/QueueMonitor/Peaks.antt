-- ===== src/Metrics/QueueMonitor/Peaks.antt =====
-- The maxima of metrics/queue_monitor.cpp are the largest depths since the last reset.
use datafeed_server.Prelude.{
  ℕ, ◌≤◌, ◌≡◌, ◌≢◌, refl, ◌∙◌, ap, sym, ◌⊎◌, inl, inr, List, [], ◌∷◌, arith, max,
}
use datafeed_server.Metrics.QueueMonitor.{
  Gauge, QueueMonitor, Queue, Call, increment, decrement, set_depth, reset, step, run,
}

unfoldable pub gauge_of {ℓ} : {D : Type ℓ} → Queue → QueueMonitor D → Gauge
gauge_of Queue.incoming m = m.incoming
gauge_of Queue.outgoing m = m.outgoing
gauge_of Queue.serialization m = m.serialization

module _ {ℓ} {D : Type ℓ} (zero_ms : D) (q : Queue) where
  -- The largest depth of the queue from a state on, since the last reset.
  unfoldable pub largest : List (Call D) → QueueMonitor D → ℕ → ℕ
  largest [] m high = high
  largest (Call.resets ∷ cs) m high = largest cs (step zero_ms Call.resets m) 0
  largest (c ∷ cs) m high =
      let m' = step zero_ms c m in largest cs m' (max high (gauge_of q m').depth)

  -- Each call but `reset` raises the maximum to the new depth, if that is larger.
  step-peak :
      (c : Call D) (m : QueueMonitor D)
      → (gauge_of q m).depth ≤ (gauge_of q m).peak
      → c ≢ Call.resets
      → (gauge_of q (step zero_ms c m)).peak
        ≡ max (gauge_of q m).peak (gauge_of q (step zero_ms c m)).depth
  unfolding step gauge_of increment decrement set_depth
  step-peak (Call.increments a) m h n = ground arith
  step-peak (Call.decrements a) m h n = ground arith
  step-peak (Call.sets a depth) m h n = ground arith
  step-peak Call.overflows m h n = ground arith
  step-peak (Call.sets_backpressure a) m h n = ground arith
  step-peak (Call.records_wait_time a) m h n = ground arith
  step-peak (Call.records_processing_time a) m h n = ground arith
  step-peak Call.resets m h n = absurd (n refl)

  reset-peak : (m : QueueMonitor D) → (gauge_of q (step zero_ms Call.resets m)).peak ≡ 0
  unfolding step gauge_of
  reset-peak m = ground arith

  reset-depth : (m : QueueMonitor D) → (gauge_of q (step zero_ms Call.resets m)).depth ≡ 0
  unfolding step gauge_of
  reset-depth m = ground arith

  largest-cons :
      (c : Call D) (cs : List (Call D)) (m : QueueMonitor D) (high : ℕ)
      → c ≢ Call.resets
      → largest (c ∷ cs) m high
        ≡ largest cs (step zero_ms c m) (max high (gauge_of q (step zero_ms c m)).depth)
  unfolding largest
  largest-cons Call.resets cs m high n = absurd (n refl)
  largest-cons c cs m high n = refl

  largest-nil : (m : QueueMonitor D) → (gauge_of q m).peak ≡ largest [] m (gauge_of q m).peak
  unfolding largest
  largest-nil m = refl

  largest-resets :
      (cs : List (Call D)) (m : QueueMonitor D) (high : ℕ)
      → largest (Call.resets ∷ cs) m high ≡ largest cs (step zero_ms Call.resets m) 0
  unfolding largest
  largest-resets cs m high = refl

  reset-or-not : (c : Call D) → (c ≡ Call.resets) ⊎ (c ≢ Call.resets)
  reset-or-not Call.resets = inl refl
  reset-or-not c = inr (λ e. cc)

  depth-run :
      (cs : List (Call D)) (m : QueueMonitor D)
      → (gauge_of q m).depth ≤ (gauge_of q m).peak
      → (gauge_of q (run zero_ms cs m)).depth ≤ (gauge_of q (run zero_ms cs m)).peak
  unfolding run
  depth-run [] m h = h
  depth-run (c ∷ cs) m h = elim (reset-or-not c) [
    | inl e ↦
        rw e
          (depth-run cs (step zero_ms Call.resets m) (omega (arith, reset-peak m, reset-depth m)))
    | inr n ↦ depth-run cs (step zero_ms c m) (omega (arith, step-peak c m h n))
  ]

  peak-run :
      (cs : List (Call D)) (m : QueueMonitor D)
      → (gauge_of q m).depth ≤ (gauge_of q m).peak
      → (gauge_of q (run zero_ms cs m)).peak ≡ largest cs m (gauge_of q m).peak
  unfolding run
  peak-run [] m h = largest-nil m
  peak-run (c ∷ cs) m h = elim (reset-or-not c) [
    | inl e ↦
        let m' = step zero_ms Call.resets m in
        rw e (
          peak-run cs m' (omega (arith, reset-peak m, reset-depth m))
          ∙ ap (largest cs m') (reset-peak m)
          ∙ sym (largest-resets cs m (gauge_of q m).peak))
    | inr n ↦
        let m' = step zero_ms c m in
        peak-run cs m' (omega (arith, step-peak c m h n))
        ∙ ap (largest cs m') (step-peak c m h n)
        ∙ sym (largest-cons c cs m (gauge_of q m).peak n)
  ]

-- From a reset on, each queue's reported maximum is the largest depth that the queue has had, and it is
-- at least the present depth.
pub run-peak {ℓ} :
    {D : Type ℓ} (zero_ms : D) (q : Queue) (cs : List (Call D))
    → ((gauge_of q (run zero_ms cs (reset zero_ms))).peak ≡ largest zero_ms q cs (reset zero_ms) 0)
      × ((gauge_of q (run zero_ms cs (reset zero_ms))).depth
          ≤ (gauge_of q (run zero_ms cs (reset zero_ms))).peak)
unfolding reset gauge_of
run-peak zero_ms q cs = (
  peak-run zero_ms q cs (reset zero_ms) (start q)
      ∙ ap (largest zero_ms q cs (reset zero_ms)) (none_yet q),
  depth-run zero_ms q cs (reset zero_ms) (start q),
)
  where
    none_yet : (k : Queue) → (gauge_of k (reset zero_ms)).peak ≡ 0
    none_yet k = ground arith

    start : (k : Queue) → (gauge_of k (reset zero_ms)).depth ≤ (gauge_of k (reset zero_ms)).peak
    start k = ground arith
