-- ===== src/Database/Adapter.antt =====
-- sadapter.cpp, class SAdapter: the connection, the statements that are prepared on it, and the operations that the
-- persistence of metrics uses. Each holds the mutex throughout, which is recursive. What PostgreSQL and
-- libpqxx do is an interface; `none` is an exception of theirs.
use datafeed_server.Prelude.{
  ℕ, Bool, true, false, not, ◌&&◌, ◌||◌, String, List, [], ◌∷◌, Option, none, some, ◌≡◌,
  if◌then◌else◌, length,
}
use datafeed_server.Prelude.Int.{ℤ, pos, ◌+ℤ◌}
use datafeed_server.Database.Values.{Value, Row}
use datafeed_server.Database.Statements.{
  Statement, Insert, monitoring_statements, insert_snapshot, insert_weekly_summary,
  insert_exchange_metrics, insert_queue_entry, insert_system_metrics, insert_network_metrics,
  insert_database_metrics,
}
use datafeed_server.Database.Summaries.{
  DbSnapshot, WeeklySummary, snapshot_values, weekly_summary_values, read_snapshot,
  read_weekly_summary, read_rows,
}
use datafeed_server.Database.History.{
  ExchangeMetricsEntry, QueueEntry, SystemMetricsEntry, NetworkMetricsEntry, DatabaseMetricsEntry,
  exchange_metrics_entry_values, queue_entry_values, system_metrics_entry_values,
  network_metrics_entry_values, database_metrics_entry_values,
}

-- What the texts of the conditions ask for: the rows of an instance that were measured in some seconds.
pub record Condition : Type 0 where
  pub instance_id : String
  pub from_second : ℕ
  pub to_second : ℕ

pub record Postgres (D : Type 0) : Type 1 where
  pub Tables : Type 0
  -- does the server prepare the statement?
  pub accepts : Statement → Bool
  -- is it asked when the statement is prepared (libpqxx 7), or when it is executed?
  pub asked_at_once : Bool
  -- the identity of the new row, if the result has a row
  pub exec_insert : Insert → List (Value D) → Tables → Option (Option ℤ × Tables)
  pub select : String → Condition → Tables → Option (List (Row D))
  -- DELETE of the rows of a table whose column is before a time in milliseconds
  pub delete_before : String → String → ℕ → Tables → Option (ℤ × Tables)
  -- an INSERT needs as many expressions as it names columns, and what is not accepted fails
  pub accepts_matching :
      (i : Insert) → accepts (Statement.insert i) ≡ true → length i.columns ≡ length i.values
  pub exec_refused :
      (i : Insert) (values : List (Value D)) (t : Tables)
      → accepts (Statement.insert i) ≡ false
      → exec_insert i values t ≡ none

module _ {D : Type 0} (postgres : Postgres D) where
  open postgres use {Tables, accepts, asked_at_once, exec_insert, select, delete_before}

  -- `pImpl_->conn && pImpl_->conn->is_open()`
  pub record SAdapter : Type 0 where
    pub is_connected : Bool
    pub tables : Tables

  -- `conn->prepare` of each statement in turn
  unfoldable pub prepare_all : List Statement → Bool
  prepare_all [] = true
  prepare_all (s ∷ rest) = (not asked_at_once || accepts s) && prepare_all rest

  -- with whether the connection opens: what `connect` returns is not what `is_connected` says
  unfoldable pub connect : Bool → SAdapter → Bool × SAdapter
  unfolding prepare_all monitoring_statements
  connect opens a = (opens && prepare_all monitoring_statements, record a { is_connected = opens })

  unfoldable pub created :
      {A : Type 0} → (ℤ → A) → SAdapter → Option (Option ℤ × Tables) → Option A × SAdapter
  created out a none = (none, a)
  created out a (some (none, t)) = (none, record a { tables = t })
  created out a (some (some id, t)) = (some (out id), record a { tables = t })

  -- the operations that execute a prepared INSERT
  unfoldable pub create :
      {A : Type 0} → Insert → List (Value D) → (ℤ → A) → SAdapter → Option A × SAdapter
  unfolding created
  create i values out a =
      if a.is_connected then created out a (exec_insert i values a.tables) else (none, a)

  unfoldable pub create_feed_metrics_snapshot :
      DbSnapshot D → SAdapter → Option (DbSnapshot D) × SAdapter
  unfolding create
  create_feed_metrics_snapshot s =
      create insert_snapshot (snapshot_values s) (λ id. record s { id = id })

  unfoldable pub create_weekly_metrics_summary :
      WeeklySummary D → SAdapter → Option (WeeklySummary D) × SAdapter
  unfolding create
  create_weekly_metrics_summary s =
      create insert_weekly_summary (weekly_summary_values s) (λ id. record s { id = id })

  unfoldable pub create_exchange_metrics_entry :
      ExchangeMetricsEntry D → SAdapter → Option (ExchangeMetricsEntry D) × SAdapter
  unfolding create
  create_exchange_metrics_entry e =
      create insert_exchange_metrics (exchange_metrics_entry_values e) (λ id. record e { id = id })

  unfoldable pub create_queue_entry : QueueEntry D → SAdapter → Option (QueueEntry D) × SAdapter
  unfolding create
  create_queue_entry e =
      create insert_queue_entry (queue_entry_values e) (λ id. record e { id = id })

  unfoldable pub create_system_metrics_entry :
      SystemMetricsEntry D → SAdapter → Option (SystemMetricsEntry D) × SAdapter
  unfolding create
  create_system_metrics_entry e =
      create insert_system_metrics (system_metrics_entry_values e) (λ id. record e { id = id })

  unfoldable pub create_network_metrics_entry :
      NetworkMetricsEntry D → SAdapter → Option (NetworkMetricsEntry D) × SAdapter
  unfolding create
  create_network_metrics_entry e =
      create insert_network_metrics (network_metrics_entry_values e) (λ id. record e { id = id })

  unfoldable pub create_database_metrics_entry :
      DatabaseMetricsEntry D → SAdapter → Option (DatabaseMetricsEntry D) × SAdapter
  unfolding create
  create_database_metrics_entry e =
      create insert_database_metrics (database_metrics_entry_values e) (λ id. record e { id = id })

  unfoldable pub rows_of : Option (List (Row D)) → List (Row D)
  rows_of none = []
  rows_of (some rows) = rows

  unfoldable pub get_feed_metrics_snapshots_by_condition :
      Condition → SAdapter → List (DbSnapshot D)
  unfolding read_rows rows_of
  get_feed_metrics_snapshots_by_condition condition a =
      if a.is_connected
      then read_rows read_snapshot (rows_of (select "feed_metrics_snapshots" condition a.tables))
      else []

  unfoldable pub get_weekly_summaries_by_condition : Condition → SAdapter → List (WeeklySummary D)
  unfolding read_rows rows_of
  get_weekly_summaries_by_condition condition a =
      if a.is_connected
      then read_rows read_weekly_summary
          (rows_of (select "weekly_metrics_summary" condition a.tables))
      else []

  -- the six tables and their columns of time
  abbrev pub measured_tables : List (String × String)
  measured_tables =
      ("feed_metrics_snapshots", "measured_at")
      ∷ ("exchange_metrics_history", "snapshot_time")
      ∷ ("queue_history", "measured_at")
      ∷ ("system_metrics_history", "measured_at")
      ∷ ("network_metrics_history", "measured_at")
      ∷ ("database_metrics_history", "measured_at")
      ∷ []

  unfoldable pub delete_each : List (String × String) → ℕ → ℤ → Tables → Option (ℤ × Tables)
  delete_each [] before total t = some (total, t)
  delete_each ((table, column) ∷ rest) before total t = elim (delete_before table column before t) [
    | none ↦ none
    | some (deleted, t') ↦ delete_each rest before (total +ℤ deleted) t'
  ]

  -- in one transaction: an exception undoes all of it
  unfoldable pub delete_old_snapshots : ℕ → SAdapter → ℤ × SAdapter
  unfolding delete_each
  delete_old_snapshots before a =
      if a.is_connected
      then elim (delete_each measured_tables before (pos 0) a.tables) [
        | none ↦ (pos 0, a)
        | some (total, t) ↦ (total, record a { tables = t })
      ]
      else (pos 0, a)
