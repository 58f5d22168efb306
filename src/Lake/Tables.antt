-- ===== src/Lake/Tables.antt =====
-- The rows of the tables that crates/mamba-lake/src/schema.rs creates, and the lake as the tables
-- together. A table is the list of its rows in the order of insertion.
use open_mamba.Base.{ℕ, ℤ, String, Option, List, [], Bool}
use open_mamba.Types.{Uuid, DateTime, F64, BillingRecord}
use open_mamba.Types.Json.{Json}

-- A row of task_envelopes, with every column; `priority` is a TINYINT.
pub record TaskRecord : Type 0 where
  pub id : Uuid
  pub project : String
  pub source : String
  pub assigned_agent : String
  pub skill : Option String
  pub model : String
  pub payload : String
  pub priority : ℤ
  pub status : String
  pub openfang_job_id : Option Uuid
  pub tokens_in : Option ℤ
  pub tokens_out : Option ℤ
  pub cost_usd : Option F64
  pub encrypted_payload : Option String
  pub chain_tx : Option String
  pub created_at : DateTime
  pub dispatched_at : Option DateTime
  pub completed_at : Option DateTime
  pub response : Option String
  pub retry_count : Option ℕ
  pub not_before : Option DateTime

-- What `map_task_row` keeps of a row.
pub record TaskRow : Type 0 where
  pub id : Uuid
  pub project : String
  pub source : String
  pub assigned_agent : String
  pub skill : Option String
  pub model : String
  pub payload : String
  pub priority : ℤ
  pub status : String
  pub tokens_in : Option ℤ
  pub tokens_out : Option ℤ
  pub cost_usd : Option F64
  pub created_at : DateTime
  pub dispatched_at : Option DateTime
  pub completed_at : Option DateTime
  pub response : Option String

pub record ChainLogRecord : Type 0 where
  pub id : Uuid
  pub kind : String
  pub task_id : Option Uuid
  pub payload_hash : String
  pub tx_hash : String
  pub block_number : Option ℕ
  pub chain_id : ℕ
  pub submitted_at : DateTime
  pub confirmed_at : Option DateTime

pub record SolverOutcomeRow : Type 0 where
  pub ts : DateTime
  pub intent_id : String
  pub protocol : String
  pub src_chain : ℕ
  pub dst_chain : ℕ
  pub decision : String
  pub tx_hash : Option String
  pub predicted_gas : Option ℕ
  pub actual_gas : Option ℕ
  pub effective_gas_price_wei : Option String
  pub predicted_profit_usd : Option F64
  pub actual_profit_usd : Option F64
  pub skip_reason : Option String
  pub error : Option String

pub record SolverSkipRuleRow : Type 0 where
  pub id : Uuid
  pub protocol : String
  pub rule_json : String
  pub description : Option String
  pub confidence : F64
  pub sample_size : ℕ
  pub active : Bool
  pub created_at : DateTime
  pub superseded_at : Option DateTime

pub record Webhook : Type 0 where
  pub hook_id : String
  pub project : String
  pub assigned_agent : String
  pub skill : Option String
  pub model : String
  pub payload_template : String
  pub priority : ℤ
  pub enabled : Bool
  pub created_at : DateTime
  pub last_fired_at : Option DateTime
  pub fire_count : ℕ

pub record Schedule : Type 0 where
  pub id : String
  pub cron_expr : String
  pub project : String
  pub assigned_agent : String
  pub skill : Option String
  pub model : String
  pub payload : String
  pub priority : ℤ
  pub enabled : Bool
  pub next_run_at : DateTime
  pub last_fired_at : Option DateTime
  pub fire_count : ℕ
  pub created_at : DateTime

pub record WorkflowStep : Type 0 where
  pub name : String
  pub project : String
  pub assigned_agent : String
  pub skill : Option String
  pub model : String
  pub payload : String
  pub priority : ℕ

pub record Workflow : Type 0 where
  pub id : String
  pub name : String
  pub steps : List WorkflowStep
  pub enabled : Bool
  pub created_at : DateTime
  pub last_run_at : Option DateTime
  pub run_count : ℕ

pub record WorkflowRun : Type 0 where
  pub run_id : String
  pub workflow_id : String
  pub status : String
  pub current_step : ℕ
  pub outputs : List Json
  pub initial_input : Option String
  pub started_at : DateTime
  pub completed_at : Option DateTime
  pub error : Option String
  pub current_task_id : Option Uuid

pub record Db : Type 0 where
  pub task_envelopes : List TaskRecord
  pub billing_records : List BillingRecord
  pub chain_logs : List ChainLogRecord
  pub solver_outcomes : List SolverOutcomeRow
  pub solver_skip_rules : List SolverSkipRuleRow
  pub webhooks : List Webhook
  pub schedules : List Schedule
  pub workflows : List Workflow
  pub workflow_runs : List WorkflowRun

abbrev pub no_rows : Db
no_rows = record {
  task_envelopes = [];
  billing_records = [];
  chain_logs = [];
  solver_outcomes = [];
  solver_skip_rules = [];
  webhooks = [];
  schedules = [];
  workflows = [];
  workflow_runs = [];
}
