-- ===== src/Metrics/LatencyTracker/Samples.antt =====
-- Which samples metrics/latency_tracker.cpp has of a category after any calls: a window is a ring buffer
-- whose size is the number of valid samples.
use datafeed_server.Prelude.{
  ℕ, zero, suc, ◌+◌, ◌%◌, ◌<◌, ◌≡◌, refl, ◌∙◌, ap, List, [], ◌∷◌, Option, none, some, if◌then◌else◌,
  ltb, eqb, add64, sub64, u64_mod, arith, lookup, insert, lookup-insert, nat_key,
}
use datafeed_server.Metrics.RingBuffer.{RingBuffer, visit, for_each, push}
use datafeed_server.Metrics.LatencyTracker.{
  DoubleArithmetic, LatencyWindow, LatencyTracker, record_latency, end_latency_measurement,
  clear_window, clear, clear_each, clear_all, valid_count, samples, Call, step,
}

module _ (arithmetic : DoubleArithmetic) (ws : ℕ) where
  open arithmetic use {Double, zero_double}

  unfoldable pub ring_of : LatencyWindow arithmetic → RingBuffer Double
  ring_of w = record {
    items = w.latencies;
    head = w.head;
    size = valid_count arithmetic ws w.total_count;
  }

  no_round :
      (items : List Double) (start n : ℕ)
      → visit ws zero_double items start 0 n
        ≡ (if eqb n 0 then [] else visit ws zero_double items start 0 n)
  unfolding visit
  no_round items start zero = refl
  no_round items start (suc n) = ground arith

  pub samples-for_each :
      (w : LatencyWindow arithmetic) → samples arithmetic ws w ≡ for_each ws zero_double (ring_of w)
  unfolding samples for_each ring_of
  samples-for_each w =
      no_round w.latencies (sub64 (add64 w.head ws) (valid_count arithmetic ws w.total_count) % ws)
        (valid_count arithmetic ws w.total_count)

  valid_count-next :
      (n : ℕ)
      → n + 1 < u64_mod
      → valid_count arithmetic ws (add64 n 1) ≡ (
          if ltb (valid_count arithmetic ws n) ws
          then add64 (valid_count arithmetic ws n) 1
          else valid_count arithmetic ws n)
  unfolding valid_count
  valid_count-next n h = ground arith

  pub ring_of-record_latency :
      (x : Double) (w : LatencyWindow arithmetic)
      → w.total_count + 1 < u64_mod
      → ring_of (record_latency arithmetic ws x w) ≡ push ws zero_double x (ring_of w)
  unfolding ring_of record_latency push
  ring_of-record_latency x w h = rw (valid_count-next w.total_count h) refl

  unfoldable pub window_after :
      ℕ → Call arithmetic → LatencyWindow arithmetic → LatencyWindow arithmetic
  window_after k (Call.ends x category) w =
      if eqb category k then record_latency arithmetic ws x w else w
  window_after k (Call.clears category) w = if eqb category k then clear_window arithmetic w else w
  window_after k Call.clears_all w = clear_window arithmetic w

  lookup-clear_each :
      (k : ℕ) (m : List (ℕ × LatencyWindow arithmetic)) (w : LatencyWindow arithmetic)
      → lookup k m ≡ some w
      → lookup k (clear_each arithmetic m) ≡ some (clear_window arithmetic w)
  unfolding clear_each lookup
  lookup-clear_each k [] w h = ground arith
  lookup-clear_each k ((j, v) ∷ m) w h = ground (arith, lookup-clear_each k m w)

  -- the entry of a category is changed, if there is one
  abbrev changed :
      (LatencyWindow arithmetic → LatencyWindow arithmetic)
      → ℕ
      → LatencyTracker arithmetic
      → Option (LatencyWindow arithmetic)
      → LatencyTracker arithmetic
  changed f category t o = elim o [
    | none ↦ t
    | some v ↦ record t { latency_windows = insert category (f v) t.latency_windows }
  ]

  lookup-changed :
      (f : LatencyWindow arithmetic → LatencyWindow arithmetic) (category k : ℕ)
      (t : LatencyTracker arithmetic) (w : LatencyWindow arithmetic)
      → lookup k t.latency_windows ≡ some w
      → (o : Option (LatencyWindow arithmetic)) → lookup category t.latency_windows ≡ o
      → (lookup k (changed f category t o).latency_windows
          ≡ some (if eqb category k then f w else w))
        × ((changed f category t o).window_size ≡ t.window_size)
  lookup-changed f category k t w h none e = (ground arith, refl)
  lookup-changed f category k t w h (some v) e =
      (ground (arith, lookup-insert category k (f v) t.latency_windows), refl)

  -- A call changes the window of each category as if it were alone, and keeps the window size.
  pub lookup-step :
      (c : Call arithmetic) (k : ℕ) (t : LatencyTracker arithmetic) (w : LatencyWindow arithmetic)
      → t.window_size ≡ ws
      → lookup k t.latency_windows ≡ some w
      → (lookup k (step arithmetic c t).latency_windows ≡ some (window_after k c w))
        × ((step arithmetic c t).window_size ≡ ws)
  unfolding step window_after
  lookup-step (Call.ends x category) k t w s h =
      let (at, size) =
        lookup-changed (record_latency arithmetic t.window_size x) category k t w h
          (lookup category t.latency_windows) refl in
      unfold end_latency_measurement in
      (
        at ∙ ap (λ (n : ℕ). some (if eqb category k then record_latency arithmetic n x w else w)) s,
        size ∙ s,
      )
  lookup-step (Call.clears category) k t w s h =
      let (at, size) =
        lookup-changed (clear_window arithmetic) category k t w h
          (lookup category t.latency_windows) refl in
      unfold clear in (at, size ∙ s)
  lookup-step Call.clears_all k t w s h =
      unfold clear_all in (lookup-clear_each k t.latency_windows w h, s)
