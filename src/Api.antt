-- ===== src/Api.antt =====
-- crates/mamba-api: the HTTP handlers and the three background workers of the server.
pub mod Answer
pub mod Runner
pub mod Scheduler
pub mod Worker
pub mod Ingest
pub mod Tasks
pub mod Hooks
pub mod Flows
pub mod Auth
pub mod Board
pub mod Routes
pub mod Start
