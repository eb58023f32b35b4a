-- ===== src/Metrics/ThroughputTracker.antt =====
-- metrics/throughput_tracker.h and metrics/throughput_tracker.cpp, class ThroughputTracker: thirteen counters
-- that go through the same steps, so a counter is a name and the counts are functions of it. A time is
-- what `steady_clock::now()` returns, in nanoseconds. The rates divide a difference of counts, which the
-- model has, by the elapsed time.
pub mod Differences
mod Examples
use datafeed_server.Prelude.{
  ℕ, ◌-◌, Bool, true, false, List, [], ◌∷◌, if◌then◌else◌, ltb, eqb, add64, sub64,
}

pub data Counter : Type 0 where
  messages_received messages_sent bytes_received bytes_sent packets_received packets_sent : Counter
  ticks trades orderbook_updates subscriptions broadcasts database_writes database_reads : Counter

unfoldable pub index : Counter → ℕ
index Counter.messages_received = 0
index Counter.messages_sent = 1
index Counter.bytes_received = 2
index Counter.bytes_sent = 3
index Counter.packets_received = 4
index Counter.packets_sent = 5
index Counter.ticks = 6
index Counter.trades = 7
index Counter.orderbook_updates = 8
index Counter.subscriptions = 9
index Counter.broadcasts = 10
index Counter.database_writes = 11
index Counter.database_reads = 12

pub record ThroughputTracker : Type 0 where
  pub current : Counter → ℕ
  -- `last_messages_received_` and its like, and `last_update_time_`
  pub last : Counter → ℕ
  pub last_update_time : ℕ

-- `onMessageReceived` and its like; `reset` with the time
pub data Call : Type 0 where
  message_received message_sent : ℕ → ℕ → Call
  tick trade orderbook_update subscription broadcast database_write database_read : Call
  resets : ℕ → Call

-- also a new tracker
unfoldable pub reset : ℕ → ThroughputTracker
reset now = record { current = λ k. 0; last = λ k. 0; last_update_time = now }

-- `fetch_add(n)`
unfoldable pub count : Counter → ℕ → (Counter → ℕ) → Counter → ℕ
count k n counts j = if eqb (index j) (index k) then add64 (counts j) n else counts j

-- `if (n > 0) fetch_add(n)`
unfoldable pub count_some : Counter → ℕ → (Counter → ℕ) → Counter → ℕ
count_some k n counts j = if ltb 0 n then count k n counts j else counts j

unfoldable pub step : Call → ThroughputTracker → ThroughputTracker
step (Call.message_received bytes packets) t = record t {
  current =
      count_some Counter.packets_received packets
        (count_some Counter.bytes_received bytes (count Counter.messages_received 1 t.current));
}
step (Call.message_sent bytes packets) t = record t {
  current =
      count_some Counter.packets_sent packets
        (count_some Counter.bytes_sent bytes (count Counter.messages_sent 1 t.current));
}
step Call.tick t = record t { current = count Counter.ticks 1 t.current }
step Call.trade t = record t { current = count Counter.trades 1 t.current }
step Call.orderbook_update t = record t { current = count Counter.orderbook_updates 1 t.current }
step Call.subscription t = record t { current = count Counter.subscriptions 1 t.current }
step Call.broadcast t = record t { current = count Counter.broadcasts 1 t.current }
step Call.database_write t = record t { current = count Counter.database_writes 1 t.current }
step Call.database_read t = record t { current = count Counter.database_reads 1 t.current }
step (Call.resets now) t = reset now

unfoldable pub run : List Call → ThroughputTracker → ThroughputTracker
run [] t = t
run (c ∷ cs) t = run cs (step c t)

-- `ThroughputStats`: the counts, the differences that the rates divide, and the time they are divided by
pub record ThroughputStats : Type 0 where
  pub counts : Counter → ℕ
  pub differences : Counter → ℕ
  pub elapsed : ℕ

-- `getAndUpdateStats`: the stats and the tracker after it. An elapsed time below 1e-9 seconds counts as
-- that.
unfoldable pub get_and_update_stats : ℕ → ThroughputTracker → ThroughputStats × ThroughputTracker
get_and_update_stats now t =
    let elapsed = now - t.last_update_time in
    (
      record {
        counts = t.current;
        differences = λ k. sub64 (t.current k) (t.last k);
        elapsed = if ltb elapsed 1 then 1 else elapsed;
      },
      record { current = t.current; last = t.current; last_update_time = now },
    )
