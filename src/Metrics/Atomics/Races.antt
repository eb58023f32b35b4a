-- ===== src/Metrics/Atomics/Races.antt =====
-- The test before a `fetch_sub` is not atomic with it: `decrementIncoming` and its like of
-- metrics/queue_monitor.cpp, and `onClientDisconnected`, `onSessionRemoved` and `onSubscriptionRemoved` of
-- metrics/session_monitor.cpp, as threads that take turns.
use datafeed_server.Prelude.{
  ℕ, zero, suc, ◌+◌, ◌-◌, ◌%◌, ◌<◌, ◌≤◌, ◌≡◌, refl, List, [], ◌∷◌, arith, if◌then◌else◌, ltb, eqb,
  sub64, u64_mod, replicate,
}
use datafeed_server.Metrics.Atomics.{drop_one}

-- a thread before the load, between the load and the subtraction (with what it loaded), and at the end
pub data Thread : Type 0 where
  ready : Thread
  loaded : ℕ → Thread
  done : Thread

-- one atomic access of a thread, with the counter
unfoldable pub advance : Thread → ℕ → Thread × ℕ
advance Thread.ready n = (Thread.loaded n, n)
advance (Thread.loaded val) n = (Thread.done, if ltb 0 val then sub64 n 1 else n)
advance Thread.done n = (Thread.done, n)

-- a round: each thread makes one access, in order
unfoldable pub round : List Thread → ℕ → List Thread × ℕ
round [] n = ([], n)
round (t ∷ ts) n = let (t', n') = advance t n in let (ts', n'') = round ts n' in (t' ∷ ts', n'')

round-ready : (k n : ℕ) → round (replicate k Thread.ready) n ≡ (replicate k (Thread.loaded n), n)
unfolding round advance
round-ready zero n = refl
round-ready (suc k) n = ground (arith, round-ready k n)

round-loaded :
    (k val n : ℕ)
    → 1 ≤ val
    → n < u64_mod
    → k < u64_mod
    → (round (replicate k (Thread.loaded val)) n).1 ≡ (n + u64_mod - k) % u64_mod
unfolding round advance
round-loaded zero val n h b c = omega arith
round-loaded (suc k) val n h b c =
    ground (arith, round-loaded k val (sub64 n 1) h (omega arith) (omega arith))

-- The counter after `k` threads that all load `n` before one of them subtracts.
unfoldable pub after_both : ℕ → ℕ → ℕ
after_both k n =
    let (ts, n') = round (replicate k Thread.ready) n in let (ts', n'') = round ts n' in n''

round-loaded_zero : (k : ℕ) → (round (replicate k (Thread.loaded 0)) 0).1 ≡ 0
unfolding round advance
round-loaded_zero zero = refl
round-loaded_zero (suc k) = ground (arith, round-loaded_zero k)

-- A thread that runs the decrement undisturbed stops at 0: it leaves a counter of 0 alone, and takes 1 from
-- another. So do any number of threads that run it at once, each having loaded before one has subtracted,
-- on a counter of 0. But on any other counter that counts fewer than them they wrap it, to just below
-- 2 ^ 64.
pub concurrent_decrements-wrap :
    (k n : ℕ)
    → n < k
    → k < u64_mod
    → (drop_one n ≡ n - 1)
      × (after_both 1 n ≡ n - 1)
      × (after_both k n ≡ (if eqb n 0 then 0 else u64_mod + n - k))
unfolding after_both drop_one
concurrent_decrements-wrap k zero lt b = (
  ground arith,
  ground (arith, round-ready 1 0, round-loaded_zero 1),
  ground (arith, round-ready k 0, round-loaded_zero k),
)
concurrent_decrements-wrap k (suc n) lt b = (
  ground arith,
  ground (
    arith,
    round-ready 1 (suc n),
    round-loaded 1 (suc n) (suc n) (omega arith) (omega arith) (omega arith),
  ),
  ground
      (arith, round-ready k (suc n), round-loaded k (suc n) (suc n) (omega arith) (omega arith) b),
)
