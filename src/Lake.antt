-- ===== src/Lake.antt =====
-- crates/mamba-lake: the DuckDB tables behind one mutex, and the operations on them.
pub mod Tables
pub mod Schema
pub mod Exec
pub mod Keeps
pub mod Timestamps
pub mod Mappers
pub mod Startup
pub mod Store
pub mod Triggers
pub mod Workflows
pub mod Records
pub mod Analytics
