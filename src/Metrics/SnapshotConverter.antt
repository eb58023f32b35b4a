-- ===== src/Metrics/SnapshotConverter.antt =====
-- metrics/snapshot_converter.cpp: a snapshot as the rows that the database keeps of it.
pub mod Summary
pub mod Entries
pub use datafeed_server.Metrics.SnapshotConverter.Summary.{
  health_status_to_string, category_name, named, value_of, latency, to_metrics, to_db_snapshot,
}
pub use datafeed_server.Metrics.SnapshotConverter.Entries.{
  to_queue_entry, to_system_entry, to_network_entry, to_database_entry, to_exchange_entry,
  to_exchange_entries,
}
