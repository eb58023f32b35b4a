-- ===== src/Metrics/MetricAggregator/Summaries.antt =====
-- The summary of class MetricAggregator (metrics/metric_aggregator.cpp) by the snapshots themselves.
use datafeed_server.Prelude.{
  ℕ, ◌+◌, ◌<◌, ◌≤◌, ◌≢◌, u64_mod, add64, add64_small, ◌≡◌, refl, sym, ap, subst, ◌∙◌, List, [], ◌∷◌,
  map, length, length-append, String, lookup, nat_key, string_key, Key, arith,
}
use datafeed_server.Metrics.LatencyTracker.{DoubleArithmetic}
use datafeed_server.Metrics.Snapshot.{Snapshot}
use datafeed_server.Metrics.Running.Entries.{add_maps, values_in, values_of}
use datafeed_server.Metrics.Running.Latencies
use datafeed_server.Metrics.Running.Exchanges
use datafeed_server.Metrics.Running.Latencies.{latency_summary, lookup_latency}
use datafeed_server.Metrics.Running.Exchanges.{exchange_summary, lookup_exchange}
use datafeed_server.Metrics.Running.Rates
use datafeed_server.Metrics.Running.Totals
use datafeed_server.Metrics.Running.System
use datafeed_server.Metrics.Running.Queues
use datafeed_server.Metrics.Running.Health
use datafeed_server.Metrics.Running.Sessions
use datafeed_server.Metrics.Running.Network
use datafeed_server.Metrics.Running.Database
use datafeed_server.Metrics.MetricAggregator.{
  Running, MetricAggregator, add_snapshot, reset, report, produce_summary, add_all,
}

-- how many entries some maps have together
abbrev pub entries : {K V : Type 0} → List (List (K × V)) → ℕ
entries [] = 0
entries (m ∷ ms) = length m + entries ms

length-values_in :
    {K V : Type 0} ⦃e : Key K⦄ (k : K) (m : List (K × V)) → length (values_in k m) ≤ length m
unfolding values_in
length-values_in k [] = omega arith
length-values_in k ((j, v) ∷ rest) = ground (arith, length-values_in k rest)

length-values_of :
    {K V : Type 0} ⦃e : Key K⦄ (k : K) (ms : List (List (K × V)))
    → length (values_of k ms) ≤ entries ms
unfolding values_of
length-values_of k [] = omega arith
length-values_of k (m ∷ ms) = omega (
  arith,
  length-append (values_in k m) (values_of k ms),
  length-values_in k m,
  length-values_of k ms,
)

module _ (arithmetic : DoubleArithmetic) where
  open arithmetic use {Double}

  -- What a summary of a first snapshot and others says: each part by that part of the snapshots, and an entry
  -- of a map by the entries of its key.
  pub record IsSummary (first : Snapshot Double) (rest : List (Snapshot Double))
      (out : Snapshot Double) : Type 0 where
    pub latency_stats :
        (category : ℕ)
        → lookup category out.latency_stats
          ≡ latency_summary arithmetic
              (length (first ∷ rest))
              (values_of category (map (λ s. s.latency_stats) (first ∷ rest)))
    pub rates :
        out.rates
        ≡ Rates.summary arithmetic (length (first ∷ rest)) first.rates (map (λ s. s.rates) rest)
    pub totals : out.totals ≡ Totals.summary first.totals (map (λ s. s.totals) rest)
    pub system :
        out.system
        ≡ System.summary arithmetic (length (first ∷ rest)) first.system (map (λ s. s.system) rest)
    pub queues :
        out.queues
        ≡ Queues.summary arithmetic (length (first ∷ rest)) first.queues (map (λ s. s.queues) rest)
    pub health :
        out.health ≡ Health.summary (length (first ∷ rest)) first.health (map (λ s. s.health) rest)
    pub sessions :
        out.sessions
        ≡ Sessions.summary arithmetic
            (length (first ∷ rest))
            first.sessions
            (map (λ s. s.sessions) rest)
    pub network :
        out.network
        ≡ Network.summary arithmetic
            (length (first ∷ rest))
            first.network
            (map (λ s. s.network) rest)
    pub database :
        out.database
        ≡ Database.summary arithmetic
            (length (first ∷ rest))
            first.database
            (map (λ s. s.database) rest)
    pub exchange_stats :
        (exchange : String)
        → lookup exchange out.exchange_stats
          ≡ exchange_summary arithmetic
              (values_of exchange (map (λ s. s.exchange_stats) (first ∷ rest)))

  count_from : ℕ → List (Snapshot Double) → ℕ
  count_from n [] = n
  count_from n (s ∷ ss) = count_from (add64 n 1) ss

  count_from_lem :
      (n : ℕ) (ss : List (Snapshot Double))
      → n + length ss < u64_mod
      → count_from n ss ≡ n + length ss
  unfolding count_from
  count_from_lem n [] h = omega arith
  count_from_lem n (s ∷ ss) h =
      rw (add64_small n 1 (omega arith)) (omega (arith, count_from_lem (n + 1) ss (omega arith)))

  -- Each part of the running state, by that part of the snapshots.
  running_all :
      (ss : List (Snapshot Double)) (a : MetricAggregator Double)
      → (add_all arithmetic ss a).running ≡ record {
        count = count_from a.running.count ss;
        latency_running =
            add_maps
              (Latencies.add_latency arithmetic)
              (Latencies.new_running arithmetic)
              (map (λ s. s.latency_stats) ss)
              a.running.latency_running;
        rates = Rates.add_all arithmetic (map (λ s. s.rates) ss) a.running.rates;
        totals = Totals.add_all (map (λ s. s.totals) ss) a.running.totals;
        system = System.add_all arithmetic (map (λ s. s.system) ss) a.running.system;
        queues = Queues.add_all arithmetic (map (λ s. s.queues) ss) a.running.queues;
        health = Health.add_all (map (λ s. s.health) ss) a.running.health;
        sessions = Sessions.add_all arithmetic (map (λ s. s.sessions) ss) a.running.sessions;
        network = Network.add_all arithmetic (map (λ s. s.network) ss) a.running.network;
        database = Database.add_all arithmetic (map (λ s. s.database) ss) a.running.database;
        exchange_running =
            add_maps
              (Exchanges.add_exchange arithmetic)
              (Exchanges.new_running arithmetic)
              (map (λ s. s.exchange_stats) ss)
              a.running.exchange_running;
      }
  unfolding add_all add_snapshot count_from add_maps Rates.add_all Totals.add_all System.add_all
      Queues.add_all Health.add_all Sessions.add_all Network.add_all Database.add_all
  running_all [] a = refl
  running_all (s ∷ ss) a = running_all ss (add_snapshot arithmetic s a)

  after : ℕ → List (Snapshot Double) → Running Double
  after n ss = record {
    count = n;
    latency_running =
        add_maps (Latencies.add_latency arithmetic) (Latencies.new_running arithmetic)
          (map (λ s. s.latency_stats) ss) [];
    rates = Rates.add_all arithmetic (map (λ s. s.rates) ss) (Rates.reset arithmetic);
    totals = Totals.add_all (map (λ s. s.totals) ss) Totals.reset;
    system = System.add_all arithmetic (map (λ s. s.system) ss) (System.reset arithmetic);
    queues = Queues.add_all arithmetic (map (λ s. s.queues) ss) (Queues.reset arithmetic);
    health = Health.add_all (map (λ s. s.health) ss) Health.reset;
    sessions = Sessions.add_all arithmetic (map (λ s. s.sessions) ss) (Sessions.reset arithmetic);
    network = Network.add_all arithmetic (map (λ s. s.network) ss) (Network.reset arithmetic);
    database = Database.add_all arithmetic (map (λ s. s.database) ss) (Database.reset arithmetic);
    exchange_running =
        add_maps (Exchanges.add_exchange arithmetic) (Exchanges.new_running arithmetic)
          (map (λ s. s.exchange_stats) ss) [];
  }

  running_after :
      (ss : List (Snapshot Double)) (a : MetricAggregator Double)
      → length ss < u64_mod
      → (add_all arithmetic ss (reset arithmetic a)).running ≡ after (length ss) ss
  unfolding after reset
  running_after ss a h =
      running_all ss (reset arithmetic a)
      ∙ ap (λ n. after n ss) (count_from_lem 0 ss (omega arith) ∙ omega arith)

  report-after :
      (first : Snapshot Double) (rest : List (Snapshot Double))
      → entries (map (λ s. s.exchange_stats) (first ∷ rest)) < u64_mod
      → IsSummary first rest (report arithmetic (after (length (first ∷ rest)) (first ∷ rest)))
  unfolding after report
  report-after first rest h = record {
    latency_stats = λ category.
        lookup_latency arithmetic (length (first ∷ rest)) category
          (map (λ s. s.latency_stats) (first ∷ rest));
    rates =
        Rates.report-add_all arithmetic (length (first ∷ rest)) first.rates
          (map (λ s. s.rates) rest);
    totals = Totals.report-add_all first.totals (map (λ s. s.totals) rest);
    system =
        System.report-add_all arithmetic (length (first ∷ rest)) first.system
          (map (λ s. s.system) rest);
    queues =
        Queues.report-add_all arithmetic (length (first ∷ rest)) first.queues
          (map (λ s. s.queues) rest);
    health = Health.report-add_all (length (first ∷ rest)) first.health (map (λ s. s.health) rest);
    sessions =
        Sessions.report-add_all arithmetic (length (first ∷ rest)) first.sessions
          (map (λ s. s.sessions) rest);
    network =
        Network.report-add_all arithmetic (length (first ∷ rest)) first.network
          (map (λ s. s.network) rest);
    database =
        Database.report-add_all arithmetic (length (first ∷ rest)) first.database
          (map (λ s. s.database) rest);
    exchange_stats = λ exchange.
        lookup_exchange arithmetic exchange (map (λ s. s.exchange_stats) (first ∷ rest))
          (omega (arith, length-values_of exchange (map (λ s. s.exchange_stats) (first ∷ rest))));
  }

  produce_summary-counted :
      (a : MetricAggregator Double)
      → a.running.count ≢ 0
      → produce_summary arithmetic a ≡ report arithmetic a.running
  unfolding produce_summary
  produce_summary-counted a h = ground arith

  nonzero :
      (first : Snapshot Double) (rest : List (Snapshot Double)) (a : MetricAggregator Double)
      → length (first ∷ rest) < u64_mod
      → (add_all arithmetic (first ∷ rest) (reset arithmetic a)).running.count ≢ 0
  unfolding after
  nonzero first rest a h e = omega (arith, ap (λ r. r.count) (running_after (first ∷ rest) a h))

  -- After a reset, whatever was added before, the summary of at least one snapshot is that of the snapshots
  -- added since, for fewer than 2 ^ 31 snapshots and 2 ^ 64 entries on exchanges: gauges are averaged, counters are
  -- the latest, except that the count of queue overflows and the counters of each exchange are averaged too;
  -- flags and the status go by the majority; and what it says of a category of latencies or of
  -- an exchange depends only on that category's or exchange's entries, and is nothing if there are none.
  pub produce_summary-add_all :
      (first : Snapshot Double) (rest : List (Snapshot Double)) (a : MetricAggregator Double)
      → length (first ∷ rest) < 2147483648
      → entries (map (λ s. s.exchange_stats) (first ∷ rest)) < u64_mod
      → IsSummary first rest
          (produce_summary arithmetic (add_all arithmetic (first ∷ rest) (reset arithmetic a)))
  produce_summary-add_all first rest a few k =
      let h : length (first ∷ rest) < u64_mod = omega arith in
      let counted = running_after (first ∷ rest) a h in
      subst (IsSummary first rest)
        (sym (
          produce_summary-counted (add_all arithmetic (first ∷ rest) (reset arithmetic a))
            (nonzero first rest a h)
          ∙ ap (report arithmetic) counted))
        (report-after first rest k)
