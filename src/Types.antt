-- ===== src/Types.antt =====
-- crates/mamba-types: the envelope that flows through the bus, agent roles, billing and chain
-- records. A Uuid is the number of its 128 bits and stands for its text too; an `f64` is the number
-- of its 64 bits, so a cost is stored and read back and no arithmetic on it is claimed; a time is
-- the number of microseconds since the epoch.
pub mod Json
pub mod Agents
use open_mamba.Base.{ℕ, ◌*◌, ℤ, String, Option, none}

abbrev pub Uuid : Type 0
Uuid = ℕ

abbrev pub DateTime : Type 0
DateTime = ℕ

abbrev pub seconds : ℕ → DateTime
seconds n = n * 1_000_000

abbrev pub F64 : Type 0
F64 = ℕ

-- The bits of 0.0.
abbrev pub f64_zero : F64
f64_zero = 0

pub data TaskStatus : Type 0 where
  pending dispatched running done failed : TaskStatus

pub data TaskSource : Type 0 where
  claude_desktop claude_opus cron api webhook : TaskSource

-- `TaskStatus::as_str`.
unfoldable pub status_as_str : TaskStatus → String
status_as_str pending = "pending"
status_as_str dispatched = "dispatched"
status_as_str running = "running"
status_as_str done = "done"
status_as_str failed = "failed"

-- `TaskSource::as_str`.
unfoldable pub source_as_str : TaskSource → String
source_as_str claude_desktop = "claude_desktop"
source_as_str claude_opus = "claude_opus"
source_as_str cron = "cron"
source_as_str api = "api"
source_as_str webhook = "webhook"

pub record TaskEnvelope : Type 0 where
  pub id : Uuid
  pub project : String
  pub source : TaskSource
  pub assigned_agent : String
  pub skill : Option String
  pub model : String
  pub payload : String
  pub priority : ℕ
  pub status : TaskStatus
  pub openfang_job_id : Option Uuid
  pub tokens_in : Option ℤ
  pub tokens_out : Option ℤ
  pub cost_usd : Option F64
  pub encrypted_payload : Option String
  pub chain_tx : Option String
  pub created_at : DateTime
  pub dispatched_at : Option DateTime
  pub completed_at : Option DateTime

-- `TaskEnvelope::new`, with the fresh id and the time that it draws as its first arguments.
unfoldable pub new_envelope :
    Uuid
    → DateTime
    → String
    → TaskSource
    → String
    → Option String
    → String
    → String
    → ℕ
    → TaskEnvelope
new_envelope id now project source agent skill model payload priority = record {
  id = id;
  project = project;
  source = source;
  assigned_agent = agent;
  skill = skill;
  model = model;
  payload = payload;
  priority = priority;
  status = pending;
  openfang_job_id = none;
  tokens_in = none;
  tokens_out = none;
  cost_usd = none;
  encrypted_payload = none;
  chain_tx = none;
  created_at = now;
  dispatched_at = none;
  completed_at = none;
}

pub record BillingRecord : Type 0 where
  pub id : Uuid
  pub task_id : Uuid
  pub project : String
  pub agent_slug : String
  pub model : String
  pub tokens_in : ℤ
  pub tokens_out : ℤ
  pub cost_usd : F64
  pub encrypted_log : String
  pub chain_tx : Option String
  pub chain_block : Option ℕ
  pub created_at : DateTime

pub record BillingEvent : Type 0 where
  pub task_id : Uuid
  pub project : String
  pub agent_slug : String
  pub model : String
  pub tokens_in : ℤ
  pub tokens_out : ℤ
  pub cost_usd : F64
  pub payload_hash : String
  pub encrypted_log : String

pub data ChainLogKind : Type 0 where
  billing_anchor agent_run_completion audit_pointer : ChainLogKind

-- `ChainLogKind::as_str`.
unfoldable pub kind_as_str : ChainLogKind → String
kind_as_str billing_anchor = "billing_anchor"
kind_as_str agent_run_completion = "agent_run_completion"
kind_as_str audit_pointer = "audit_pointer"

pub record ChainLog : Type 0 where
  pub id : Uuid
  pub kind : ChainLogKind
  pub task_id : Option Uuid
  pub payload_hash : String
  pub tx_hash : String
  pub block_number : Option ℕ
  pub chain_id : ℕ
  pub submitted_at : DateTime
  pub confirmed_at : Option DateTime
