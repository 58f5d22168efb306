-- ===== src/Lib.antt =====
-- open-mamba is a server that queues tasks for agents in a DuckDB lake, dispatches them to an
-- agent runtime, an inference provider or a URL, bills the finished ones, and chains tasks into
-- workflows. Paths are from the root of the repository.
--
-- Base holds the numbers, lists and texts that the parts share. Types is crates/mamba-types (the
-- envelope and its statuses and sources, the billing and chain records; Types.Agents the roles;
-- Types.Json is the value type of payloads). Platform collects what the code calls and the
-- repository does not define: the case mapping of `str`, serde_json, hex, the cipher and the hash,
-- cron expressions, arithmetic on f64, DuckDB's text of a time and chrono's parser.
--
-- Lake is crates/mamba-lake. Lake.Exec is how its code runs: a step on a world with the database,
-- the clock, the mutex round the connection, the failures to come and the ids to draw, which
-- returns, fails, panics or never returns; a statement runs whole or changes nothing. Lake.Tables
-- has the rows, Lake.Schema the columns that src/schema.rs declares and the column lists of the SELECTs,
-- Lake.Mappers how their rows become records, Lake.Store the task queue of src/store.rs (insert_envelope, update_status,
-- list_pending and the rest), Lake.Store.Reset what puts a task back by DELETE and INSERT
-- (reset_to_pending, record_dispatch_failure, reap_stuck_tasks), Lake.Startup `Lake::open` with
-- its two repairs, Lake.Records its other tables, Lake.Triggers, Lake.Workflows and Lake.Analytics
-- the files of those names, Lake.Timestamps is src/lib.rs. Lake.Keeps has the rules for invariants
-- of the database, Lake.Store.Frame and Lake.Store.Resets what an operation on one task may change.
--
-- Nemotron is crates/mamba-nemotron/src/lib.rs, Chain is crates/mamba-chain/src/anchor.rs with
-- Chain.Crypto, its crypto.rs. Bus is crates/mamba-bus: Bus.Dispatch the routing and the three
-- dispatches of src/dispatch.rs, Bus.Errors its is_transient_error, Bus.Openfang, Bus.Billing and
-- Bus.Webhook the client, the billing worker and the completion webhook, Bus.Config what they read of
-- the environment. Bus.Queue is the queue under all that is done to it, as a step relation.
--
-- Api is crates/mamba-api: Api.Worker is src/worker.rs, Api.Scheduler src/scheduler.rs with
-- cron_util.rs, Api.Runner src/workflow_runner.rs, Api.Auth, Api.Ingest, Api.Tasks, Api.Board,
-- Api.Routes and Api.Answer are parts of src/routes.rs, Api.Hooks is src/triggers.rs and Api.Flows
-- is src/workflows.rs; Api.Routes.Guarded joins the table of routes to the gates. Api.Start is
-- src/main.rs, and Api.Start.Loops the rounds of the loops that it spawns. The handlers call the bus, the bus calls the lake; the worker, the
-- scheduler and the advancer are loops whose one round is a function. Api.Runner.Spec is the state
-- machine of one run, Api.Runner.Stored what a step leaves in the tables written out, and Api.Runner.Machine relates the ticks to it. The worker's dispatches run
-- beside it: Api.Worker.Step lets each end or panic at any moment and lets the world change in any
-- way between two steps.
--
-- Bounds: priorities are stored as TINYINT, so an INSERT above 127 fails; `as i8` and `as i64`
-- wrap. Token counts and counters are not bounded. `trim_start_matches` runs on the length of the
-- text as fuel, each round drops 13 bytes; every other recursion is structural.
--
-- Not modelled: the CREATE INDEX lines of src/schema.rs, the sleeps between two rounds of a loop,
-- the logger and the CORS layer of the start, the page, the constant answer of /health, the rows of
-- tasks, solver outcomes and skip rules as the driver gives them (a TaskRow is read from the table
-- with its times as stored; where envelope_from_row parses the text of one, the text and the parser
-- are parameters), and the Python and web parts. A Uuid is a number of 128 bits that is always well
-- formed; times do not pass within a call; the logging macros evaluate nothing.
mod Base
pub mod Types
pub mod Platform
pub mod Lake
pub mod Nemotron
pub mod Chain
pub mod Bus
pub mod Api
mod Tests
