-- ===== src/Metrics/LatencyTracker/History.antt =====
-- What metrics/latency_tracker.cpp reports of a category after any calls: the last samples, as many as fit.
use datafeed_server.Prelude.{
  ℕ, ◌+◌, ◌-◌, ◌^◌, ◌<◌, ◌≤◌, ◌≡◌, refl, ◌∙◌, ap, sym, subst, inl, inr, List, [], ◌∷◌, ◌++◌, none,
  some, if◌then◌else◌, eqb, u64_mod, arith, length, length-append, length-replicate, lookup,
  nat_key, Bool-cases, drop_all,
}
use datafeed_server.Metrics.RingBuffer.{RingBuffer, for_each, push}
use datafeed_server.Metrics.RingBuffer.Invariant.{IsValid, push-IsValid}
use datafeed_server.Metrics.RingBuffer.Contents.{keep_last}
use datafeed_server.Metrics.RingBuffer.History.{for_each-push, keep_last-append}
use datafeed_server.Metrics.LatencyTracker.{
  DoubleArithmetic, LatencyWindow, LatencyTracker, new_window, init, record_latency, clear_window,
  valid_count, samples, Call, step, run,
}
use datafeed_server.Metrics.LatencyTracker.Samples.{
  ring_of, samples-for_each, ring_of-record_latency, window_after, lookup-step,
}

module _ (arithmetic : DoubleArithmetic) where
  open arithmetic use {Double}

  -- The latencies of a category that were measured since it was last cleared.
  unfoldable pub measured : ℕ → List (Call arithmetic) → List Double → List Double
  measured k [] xs = xs
  measured k (Call.ends x category ∷ cs) xs =
      measured k cs (if eqb category k then xs ++ (x ∷ []) else xs)
  measured k (Call.clears category ∷ cs) xs = measured k cs (if eqb category k then [] else xs)
  measured k (Call.clears_all ∷ cs) xs = measured k cs []

module _ (arithmetic : DoubleArithmetic) (ws : ℕ) where
  open arithmetic use {Double, zero_double}

  -- A window that holds the last of the given latencies.
  pub record Holds (w : LatencyWindow arithmetic) (xs : List Double) : Type 0 where
    pub ring : IsValid ws zero_double (ring_of arithmetic ws w)
    pub kept : for_each ws zero_double (ring_of arithmetic ws w) ≡ keep_last ws xs
    pub total : w.total_count ≡ length xs

  kept-push :
      (x : Double) (r : RingBuffer Double) (xs : List Double)
      → IsValid ws zero_double r
      → for_each ws zero_double r ≡ keep_last ws xs
      → for_each ws zero_double (push ws zero_double x r) ≡ keep_last ws (xs ++ (x ∷ []))
  kept-push x r xs v k =
      for_each-push ws zero_double x r v
      ∙ ap (λ l. keep_last ws (l ++ (x ∷ []))) k
      ∙ keep_last-append ws zero_double xs (x ∷ [])

  record_latency-Holds :
      (x : Double) (w : LatencyWindow arithmetic) (xs : List Double)
      → Holds w xs
      → length xs + 1 < u64_mod
      → Holds (record_latency arithmetic ws x w) (xs ++ (x ∷ []))
  record_latency-Holds x w xs h b =
      let pushed = ring_of-record_latency arithmetic ws x w (omega (arith, h.total)) in
      record {
        ring =
            subst (IsValid ws zero_double) (sym pushed)
              (push-IsValid ws zero_double x (ring_of arithmetic ws w) h.ring);
        kept =
            ap (for_each ws zero_double) pushed
            ∙ kept-push x (ring_of arithmetic ws w) xs h.ring h.kept;
        total = unfold record_latency in omega (arith, h.total, length-append xs (x ∷ []));
      }

  for_each-empty : (r : RingBuffer Double) → r.size ≡ 0 → for_each ws zero_double r ≡ []
  unfolding for_each
  for_each-empty r h = ground arith

  no_valid : (n : ℕ) → n ≡ 0 → valid_count arithmetic ws n ≡ 0
  unfolding valid_count
  no_valid n h = ground arith

  no_samples :
      (w : LatencyWindow arithmetic)
      → length w.latencies ≡ ws
      → w.head ≡ 0
      → w.total_count ≡ 0
      → 1 ≤ ws
      → ws ≤ 2 ^ 63
      → Holds w []
  unfolding ring_of
  no_samples w items head total p b =
      let none_valid = no_valid w.total_count total in
      record {
        ring = omega (arith, items, head, none_valid);
        kept =
            for_each-empty (ring_of arithmetic ws w) none_valid
            ∙ sym (drop_all (0 - ws) [] (omega arith));
        total = total;
      }

  clear_window-Holds :
      (w : LatencyWindow arithmetic) (xs : List Double)
      → Holds w xs
      → Holds (clear_window arithmetic w) []
  unfolding clear_window
  clear_window-Holds w xs h =
      no_samples (clear_window arithmetic w)
        (length-replicate (length w.latencies) zero_double ∙ (unfold ring_of in h.ring.storage))
        refl refl h.ring.positive h.ring.small

  new_window-Holds : 1 ≤ ws → ws ≤ 2 ^ 63 → Holds (new_window arithmetic ws) []
  unfolding new_window
  new_window-Holds p b =
      no_samples (new_window arithmetic ws) (length-replicate ws zero_double) refl refl p b

  -- what the calls measure is at most as long as there are calls
  length-measured :
      (k : ℕ) (c : Call arithmetic) (xs : List Double)
      → length (measured arithmetic k (c ∷ []) xs) ≤ length xs + 1
  unfolding measured
  length-measured k (Call.ends x category) xs = ground (arith, length-append xs (x ∷ []))
  length-measured k (Call.clears category) xs = ground arith
  length-measured k Call.clears_all xs = ground arith

  measured-cons :
      (k : ℕ) (c : Call arithmetic) (cs : List (Call arithmetic)) (xs : List Double)
      → measured arithmetic k (c ∷ cs) xs
        ≡ measured arithmetic k cs (measured arithmetic k (c ∷ []) xs)
  unfolding measured
  measured-cons k (Call.ends x category) cs xs = refl
  measured-cons k (Call.clears category) cs xs = refl
  measured-cons k Call.clears_all cs xs = refl

  window_after-Holds :
      (k : ℕ) (c : Call arithmetic) (w : LatencyWindow arithmetic) (xs : List Double)
      → Holds w xs
      → length xs + 1 < u64_mod
      → Holds (window_after arithmetic ws k c w) (measured arithmetic k (c ∷ []) xs)
  unfolding window_after measured
  window_after-Holds k (Call.ends x category) w xs h b = elim (Bool-cases (eqb category k)) [
    | inl e ↦ rw e (record_latency-Holds x w xs h b)
    | inr e ↦ rw e h
  ]
  window_after-Holds k (Call.clears category) w xs h b = elim (Bool-cases (eqb category k)) [
    | inl e ↦ rw e (clear_window-Holds w xs h)
    | inr e ↦ rw e h
  ]
  window_after-Holds k Call.clears_all w xs h b = clear_window-Holds w xs h

  -- the samples from which `getLatencyStats` computes, and their number
  unfoldable pub samples_of : ℕ → LatencyTracker arithmetic → List Double
  samples_of k t = elim (lookup k t.latency_windows) [
    | none ↦ []
    | some w ↦ samples arithmetic t.window_size w
  ]

  samples_of-Holds :
      (k : ℕ) (t : LatencyTracker arithmetic) (w : LatencyWindow arithmetic) (xs : List Double)
      → t.window_size ≡ ws
      → lookup k t.latency_windows ≡ some w
      → Holds w xs
      → samples_of k t ≡ keep_last ws xs
  unfolding samples_of
  samples_of-Holds k t w xs s at h =
      rw (at, samples_of, s) (samples-for_each arithmetic ws w ∙ h.kept)

  run-Holds :
      (cs : List (Call arithmetic)) (k : ℕ) (t : LatencyTracker arithmetic)
      (w : LatencyWindow arithmetic) (xs : List Double)
      → t.window_size ≡ ws
      → lookup k t.latency_windows ≡ some w
      → Holds w xs
      → length xs + length cs < u64_mod
      → samples_of k (run arithmetic cs t) ≡ keep_last ws (measured arithmetic k cs xs)
  unfolding run
  run-Holds [] k t w xs s at h b = unfold measured in samples_of-Holds k t w xs s at h
  run-Holds (c ∷ cs) k t w xs s at h b =
      let (at', s') = lookup-step arithmetic ws c k t w s at in
      run-Holds cs k (step arithmetic c t) (window_after arithmetic ws k c w)
        (measured arithmetic k (c ∷ []) xs) s' at' (window_after-Holds k c w xs h (omega arith))
        (omega (arith, length-measured k c xs))
      ∙ ap (keep_last ws) (sym (measured-cons k c cs xs))

  init-lookup :
      (k : ℕ)
      → k < 8
      → lookup k (init arithmetic ws).latency_windows ≡ some (new_window arithmetic ws)
  unfolding init lookup
  init-lookup k h = ground arith

  -- After fewer than 2 ^ 64 calls on a new tracker with a window of 1 to 2 ^ 63 samples, the samples of each
  -- of the eight categories are the latencies that were measured for it since it was last cleared, in
  -- order, or the last of them, as many as the window has room for.
  pub run-samples :
      (cs : List (Call arithmetic)) (k : ℕ)
      → k < 8
      → 1 ≤ ws
      → ws ≤ 2 ^ 63
      → length cs < u64_mod
      → samples_of k (run arithmetic cs (init arithmetic ws))
        ≡ keep_last ws (measured arithmetic k cs [])
  run-samples cs k known positive small b =
      run-Holds cs k (init arithmetic ws) (new_window arithmetic ws) [] (unfold init in refl)
        (init-lookup k known) (new_window-Holds positive small) (omega arith)
