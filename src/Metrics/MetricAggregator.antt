-- ===== src/Metrics/MetricAggregator.antt =====
-- metrics/metric_aggregator.h and metrics/metric_aggregator.cpp, class MetricAggregator. What its reports
-- depend on is `running`, kept for each part of a snapshot by a module of Running, and what they do not show
-- is `extremes`. One thread, the state manager's worker, uses an aggregator.
pub mod Summaries
pub mod Forgetting
pub mod Intervals
mod Examples
use datafeed_server.Prelude.{
  ℕ, Bool, String, List, [], ◌∷◌, if◌then◌else◌, eqb, add64, nat_key, string_key,
}
use datafeed_server.Metrics.LatencyTracker.{DoubleArithmetic}
use datafeed_server.Metrics.Snapshot.{Snapshot, blank}
use datafeed_server.Metrics.Running.Entries.{add_entries, report_entries}
use datafeed_server.Metrics.Running.Latencies
use datafeed_server.Metrics.Running.Exchanges
use datafeed_server.Metrics.Running.Latencies.{LatencyRunning}
use datafeed_server.Metrics.Running.Exchanges.{ExchangeRunning}
use datafeed_server.Metrics.Running.Extremes.{Extremes, new_extremes, add_extremes, reset_extremes}
use datafeed_server.Metrics.Running.Rates
use datafeed_server.Metrics.Running.Rates.{RatesRunning}
use datafeed_server.Metrics.Running.Totals
use datafeed_server.Metrics.Running.Totals.{TotalsRunning}
use datafeed_server.Metrics.Running.System
use datafeed_server.Metrics.Running.System.{SystemRunning}
use datafeed_server.Metrics.Running.Queues
use datafeed_server.Metrics.Running.Queues.{QueuesRunning}
use datafeed_server.Metrics.Running.Health
use datafeed_server.Metrics.Running.Health.{HealthRunning}
use datafeed_server.Metrics.Running.Sessions
use datafeed_server.Metrics.Running.Sessions.{SessionsRunning}
use datafeed_server.Metrics.Running.Network
use datafeed_server.Metrics.Running.Network.{NetworkRunning}
use datafeed_server.Metrics.Running.Database
use datafeed_server.Metrics.Running.Database.{DatabaseRunning}

pub record Running (D : Type 0) : Type 0 where
  pub count : ℕ
  pub latency_running : List (ℕ × LatencyRunning D)
  pub rates : RatesRunning D
  pub totals : TotalsRunning
  pub system : SystemRunning D
  pub queues : QueuesRunning D
  pub health : HealthRunning
  pub sessions : SessionsRunning D
  pub network : NetworkRunning D
  pub database : DatabaseRunning D
  pub exchange_running : List (String × ExchangeRunning D)

pub record MetricAggregator (D : Type 0) : Type 0 where
  pub running : Running D
  pub extremes : Extremes D

module _ (arithmetic : DoubleArithmetic) where
  open arithmetic use {Double, zero_double}

  unfoldable pub reset_running : Running Double
  reset_running = record {
    count = 0;
    latency_running = [];
    rates = Rates.reset arithmetic;
    totals = Totals.reset;
    system = System.reset arithmetic;
    queues = Queues.reset arithmetic;
    health = Health.reset;
    sessions = Sessions.reset arithmetic;
    network = Network.reset arithmetic;
    database = Database.reset arithmetic;
    exchange_running = [];
  }

  unfoldable pub add_running : Snapshot Double → Running Double → Running Double
  add_running s r = record {
    count = add64 r.count 1;
    latency_running =
        add_entries (Latencies.add_latency arithmetic) (Latencies.new_running arithmetic)
          s.latency_stats r.latency_running;
    rates = Rates.add_rates arithmetic s.rates r.rates;
    totals = Totals.add_totals s.totals r.totals;
    system = System.add_system arithmetic s.system r.system;
    queues = Queues.add_queues arithmetic s.queues r.queues;
    health = Health.add_health s.health r.health;
    sessions = Sessions.add_sessions arithmetic s.sessions r.sessions;
    network = Network.add_network arithmetic s.network r.network;
    database = Database.add_database arithmetic s.database r.database;
    exchange_running =
        add_entries (Exchanges.add_exchange arithmetic) (Exchanges.new_running arithmetic)
          s.exchange_stats r.exchange_running;
  }

  -- with the division of `produceSummary`, whose divisor is not 0
  unfoldable pub report : Running Double → Snapshot Double
  report r = record {
    latency_stats = report_entries (Latencies.report_latency arithmetic r.count) r.latency_running;
    rates = Rates.report_rates arithmetic r.count r.rates;
    totals = Totals.report_totals r.totals;
    system = System.report_system arithmetic r.count r.system;
    queues = Queues.report_queues arithmetic r.count r.queues;
    health = Health.report_health r.count r.health;
    sessions = Sessions.report_sessions arithmetic r.count r.sessions;
    network = Network.report_network arithmetic r.count r.network;
    database = Database.report_database arithmetic r.count r.database;
    exchange_stats = report_entries (Exchanges.report_exchange arithmetic) r.exchange_running;
  }

  unfoldable pub init : MetricAggregator Double
  unfolding reset_running
  init = record { running = reset_running; extremes = new_extremes arithmetic }

  unfoldable pub add_snapshot : Snapshot Double → MetricAggregator Double → MetricAggregator Double
  unfolding add_running
  add_snapshot s a = record {
    running = add_running s a.running;
    extremes = add_extremes arithmetic s.rates s.system a.running.system.initialized a.extremes;
  }

  unfoldable pub produce_summary : MetricAggregator Double → Snapshot Double
  unfolding report
  produce_summary a = if eqb a.running.count 0 then blank zero_double else report a.running

  unfoldable pub reset : MetricAggregator Double → MetricAggregator Double
  unfolding reset_running
  reset a = record { running = reset_running; extremes = reset_extremes arithmetic a.extremes }

  unfoldable pub add_all :
      List (Snapshot Double) → MetricAggregator Double → MetricAggregator Double
  add_all [] a = a
  add_all (s ∷ ss) a = add_all ss (add_snapshot s a)
