-- ===== src/Database/ReadBack.antt =====
-- Rows of the tables that class SAdapter (sadapter.cpp) writes, read back.
pub mod Times
pub mod Stored
pub mod Entries
pub mod Weekly
