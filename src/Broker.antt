-- ===== src/Broker.antt =====
-- broker/: the adapter for the exchanges.
pub mod EAdapter
