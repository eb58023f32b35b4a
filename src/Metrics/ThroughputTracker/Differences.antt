-- ===== src/Metrics/ThroughputTracker/Differences.antt =====
-- Between two reports of metrics/throughput_tracker.cpp the difference is what was counted in between, also
-- where a counter has wrapped.
use datafeed_server.Prelude.{
  ℕ, ◌+◌, ◌%◌, ◌<◌, ◌≤◌, ◌≡◌, refl, ◌∙◌, Bool, true, false, List, [], ◌∷◌, if◌then◌else◌, arith,
  eqb, u64_mod,
}
use datafeed_server.Metrics.ThroughputTracker.{
  Counter, index, ThroughputTracker, Call, count, count_some, step, run, get_and_update_stats,
}

unfoldable pub one_if : Bool → ℕ → ℕ
one_if b n = if b then n else 0

-- what a call adds to a counter, and what all do since the last reset, from a number on
unfoldable pub amount : Counter → Call → ℕ
unfolding index one_if
amount k (Call.message_received bytes packets) =
    one_if (eqb (index k) 0) 1 + one_if (eqb (index k) 2) bytes + one_if (eqb (index k) 4) packets
amount k (Call.message_sent bytes packets) =
    one_if (eqb (index k) 1) 1 + one_if (eqb (index k) 3) bytes + one_if (eqb (index k) 5) packets
amount k Call.tick = one_if (eqb (index k) 6) 1
amount k Call.trade = one_if (eqb (index k) 7) 1
amount k Call.orderbook_update = one_if (eqb (index k) 8) 1
amount k Call.subscription = one_if (eqb (index k) 9) 1
amount k Call.broadcast = one_if (eqb (index k) 10) 1
amount k Call.database_write = one_if (eqb (index k) 11) 1
amount k Call.database_read = one_if (eqb (index k) 12) 1
amount k (Call.resets now) = 0

-- Does no call reset the tracker?
unfoldable pub no_reset : List Call → Bool
no_reset [] = true
no_reset (Call.resets now ∷ cs) = false
no_reset (c ∷ cs) = no_reset cs

unfoldable pub added : Counter → List Call → ℕ
added k [] = 0
added k (c ∷ cs) = amount k c + added k cs

count-mod :
    (k j : Counter) (n : ℕ) (counts : Counter → ℕ)
    → counts j < u64_mod
    → count k n counts j ≡ (counts j + one_if (eqb (index j) (index k)) n) % u64_mod
unfolding count one_if
count-mod k j n counts b = ground arith

count_some-mod :
    (k j : Counter) (n : ℕ) (counts : Counter → ℕ)
    → counts j < u64_mod
    → count_some k n counts j ≡ (counts j + one_if (eqb (index j) (index k)) n) % u64_mod
unfolding count_some count one_if
count_some-mod k j n counts b = ground arith

three-mod :
    (x a b c y z w : ℕ)
    → y ≡ (x + a) % u64_mod
    → (y < u64_mod → z ≡ (y + b) % u64_mod)
    → (z < u64_mod → w ≡ (z + c) % u64_mod)
    → w ≡ (x + (a + b + c)) % u64_mod
three-mod x a b c y z w e f g =
    let z' = f (omega (arith, e)) in let w' = g (omega (arith, z')) in omega (arith, e, z', w')

step-current :
    (k : Counter) (c : Call) (t : ThroughputTracker)
    → no_reset (c ∷ []) ≡ true
    → t.current k < u64_mod
    → ((step c t).current k ≡ (t.current k + amount k c) % u64_mod) × ((step c t).last k ≡ t.last k)
unfolding step amount no_reset index
step-current k (Call.message_received bytes packets) t h b =
    let one = count Counter.messages_received 1 t.current in
    let two = count_some Counter.bytes_received bytes one in
    (
      three-mod (t.current k) _ _ _ _ _ _ (count-mod Counter.messages_received k 1 t.current b)
          (count_some-mod Counter.bytes_received k bytes one)
          (count_some-mod Counter.packets_received k packets two),
      refl,
    )
step-current k (Call.message_sent bytes packets) t h b =
    let one = count Counter.messages_sent 1 t.current in
    let two = count_some Counter.bytes_sent bytes one in
    (
      three-mod (t.current k) _ _ _ _ _ _ (count-mod Counter.messages_sent k 1 t.current b)
          (count_some-mod Counter.bytes_sent k bytes one)
          (count_some-mod Counter.packets_sent k packets two),
      refl,
    )
step-current k Call.tick t h b = (count-mod Counter.ticks k 1 t.current b, refl)
step-current k Call.trade t h b = (count-mod Counter.trades k 1 t.current b, refl)
step-current k Call.orderbook_update t h b =
    (count-mod Counter.orderbook_updates k 1 t.current b, refl)
step-current k Call.subscription t h b = (count-mod Counter.subscriptions k 1 t.current b, refl)
step-current k Call.broadcast t h b = (count-mod Counter.broadcasts k 1 t.current b, refl)
step-current k Call.database_write t h b = (count-mod Counter.database_writes k 1 t.current b, refl)
step-current k Call.database_read t h b = (count-mod Counter.database_reads k 1 t.current b, refl)
step-current k (Call.resets now) t h b = ground arith

no_reset-cons :
    (c : Call) (cs : List Call)
    → no_reset (c ∷ cs) ≡ true
    → (no_reset (c ∷ []) ≡ true) × (no_reset cs ≡ true)
unfolding no_reset
no_reset-cons (Call.resets now) cs h = ground arith
no_reset-cons Call.tick cs h = (refl, h)
no_reset-cons c cs h = (refl, h)

run-current :
    (k : Counter) (cs : List Call) (t : ThroughputTracker)
    → no_reset cs ≡ true
    → t.current k < u64_mod
    → ((run cs t).current k ≡ (t.current k + added k cs) % u64_mod) × ((run cs t).last k ≡ t.last k)
unfolding run added
run-current k [] t h b = (omega arith, refl)
run-current k (c ∷ cs) t h b =
    let (first, later) = no_reset-cons c cs h in
    let (one, last_one) = step-current k c t first b in
    let (rest, last_rest) = run-current k cs (step c t) later (omega (arith, one)) in
    (omega (arith, one, rest), last_rest ∙ last_one)

-- The difference that a report shows of a counter is what the calls since the previous report have added,
-- modulo 2 ^ 64, if none of them resets the tracker; and the elapsed time is never 0.
pub differences-between :
    (k : Counter) (cs : List Call) (t : ThroughputTracker) (before now : ℕ)
    → no_reset cs ≡ true
    → t.current k < u64_mod
    → ((get_and_update_stats now (run cs (get_and_update_stats before t).1)).0.differences k
        ≡ added k cs % u64_mod)
      × (1 ≤ (get_and_update_stats now (run cs (get_and_update_stats before t).1)).0.elapsed)
unfolding get_and_update_stats
differences-between k cs t before now h b =
    let reported : ThroughputTracker = record {
      current = t.current;
      last = t.current;
      last_update_time = before;
    } in
    let (current, last) = run-current k cs reported h b in
    (omega (arith, current, last), ground arith)
