-- ===== src/Database/History.antt =====
-- sadapter.h and sadapter.cpp: the rows of the five history tables, what `create_queue_entry` and its like bind to
-- the parameters of the INSERT, and how the rows are read by `get_queue_entries_by_condition` and its like.
-- `none` is an exception.
pub mod Exchanges
pub mod Queues
pub mod System
pub mod Network
pub mod Database
pub use datafeed_server.Database.History.Exchanges.{ExchangeMetricsEntry}
unfoldable pub use datafeed_server.Database.History.Exchanges.{
  exchange_metrics_entry_values, read_exchange_metrics_entry,
}
pub use datafeed_server.Database.History.Queues.{QueueEntry}
unfoldable pub use datafeed_server.Database.History.Queues.{queue_entry_values, read_queue_entry}
pub use datafeed_server.Database.History.System.{SystemMetricsEntry}
unfoldable pub use datafeed_server.Database.History.System.{
  system_metrics_entry_values, read_system_metrics_entry,
}
pub use datafeed_server.Database.History.Network.{NetworkMetricsEntry}
unfoldable pub use datafeed_server.Database.History.Network.{
  network_metrics_entry_values, read_network_metrics_entry,
}
pub use datafeed_server.Database.History.Database.{DatabaseMetricsEntry}
unfoldable pub use datafeed_server.Database.History.Database.{
  database_metrics_entry_values, read_database_metrics_entry,
}
