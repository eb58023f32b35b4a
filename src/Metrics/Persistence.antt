-- ===== src/Metrics/Persistence.antt =====
-- server/server.cpp: the callback that stores the summary of an interval, set in `main` on the state manager.
mod Examples
use datafeed_server.Prelude.{ℕ, String, List, [], ◌∷◌, Option, none, some, ◌≡◌, refl}
use datafeed_server.Metrics.LatencyTracker.{DoubleArithmetic}
use datafeed_server.Metrics.Snapshot.{Snapshot, LatencyCategoryStats}
use datafeed_server.Metrics.SnapshotConverter.{
  to_db_snapshot, to_exchange_entries, to_queue_entry, to_system_entry, to_network_entry,
  to_database_entry,
}
use datafeed_server.Database.Summaries.{DbSnapshot}
use datafeed_server.Database.History.{ExchangeMetricsEntry}
use datafeed_server.Database.Adapter.{
  Postgres, SAdapter, create_feed_metrics_snapshot, create_exchange_metrics_entry,
  create_queue_entry, create_system_metrics_entry, create_network_metrics_entry,
  create_database_metrics_entry,
}
use datafeed_server.Database.Refused.{create-refused}

abbrev pub live : String
live = "live-1"

module _ (arithmetic : DoubleArithmetic) (postgres : Postgres arithmetic.Double)
    (dump : List (String × LatencyCategoryStats arithmetic.Double) → String) where
  open arithmetic use {Double}

  unfoldable pub store_exchanges :
      List (ExchangeMetricsEntry Double) → SAdapter postgres → SAdapter postgres
  store_exchanges [] a = a
  store_exchanges (e ∷ es) a = store_exchanges es (create_exchange_metrics_entry postgres e a).1

  unfoldable pub store_histories : ℕ → Snapshot Double → SAdapter postgres → SAdapter postgres
  unfolding store_exchanges
  store_histories now summary a =
      let exchanges =
        store_exchanges (to_exchange_entries arithmetic summary.exchange_stats live now) a in
      let queue =
        (create_queue_entry postgres (to_queue_entry arithmetic summary live now) exchanges).1 in
      let system =
        (create_system_metrics_entry postgres (to_system_entry arithmetic summary live now)
          queue).1 in
      let network =
        (create_network_metrics_entry postgres (to_network_entry arithmetic summary live now)
          system).1 in
      (create_database_metrics_entry postgres (to_database_entry arithmetic summary live now)
        network).1

  -- after the snapshot: a failure ends it
  unfoldable pub after_snapshot :
      ℕ → Snapshot Double → Option (DbSnapshot Double) × SAdapter postgres → SAdapter postgres
  unfolding store_histories
  after_snapshot now summary (none, a) = a
  after_snapshot now summary (some stored, a) = store_histories now summary a

  unfoldable pub persist_summary : ℕ → Snapshot Double → SAdapter postgres → SAdapter postgres
  unfolding after_snapshot
  persist_summary now summary a =
      after_snapshot now summary
        (create_feed_metrics_snapshot postgres (to_db_snapshot arithmetic dump summary live now) a)

  -- Nothing of any summary is ever stored, the history tables included, with a PostgreSQL that refuses an INSERT of
  -- more expressions than columns: the callback stops where the snapshot fails, and the snapshot always
  -- fails.
  pub persist_summary-stores_nothing :
      (now : ℕ) (summary : Snapshot Double) (a : SAdapter postgres)
      → persist_summary now summary a ≡ a
  unfolding persist_summary
  persist_summary-stores_nothing now summary a =
      rw (create-refused postgres (to_db_snapshot arithmetic dump summary live now) a) refl
