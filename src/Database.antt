-- ===== src/Database.antt =====
-- sadapter.h and sadapter.cpp, class SAdapter: the tables of metrics that the server keeps in PostgreSQL.
pub mod Metrics
pub mod Timestamps
pub mod Values
pub mod Statements
pub mod History
pub mod Summaries
pub mod ReadBack
pub mod Adapter
pub mod Refused
pub mod Store
mod Examples
