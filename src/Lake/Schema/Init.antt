-- ===== src/Lake/Schema/Init.antt =====
-- crates/mamba-lake/src/schema.rs, INIT_SQL: the tables beside task_envelopes.
use open_mamba.Base.{List, [], ◌∷◌}
use open_mamba.Lake.Schema.{
  Column, optional, required, key_column, defaulting, uuid, varchar, tinyint, integer, bigint,
  ubigint, double, boolean, timestamptz, json,
}

abbrev pub billing_records : List Column
billing_records =
    key_column "id" uuid
    ∷ required "task_id" uuid
    ∷ required "project" varchar
    ∷ required "agent_slug" varchar
    ∷ required "model" varchar
    ∷ defaulting "0" (required "tokens_in" bigint)
    ∷ defaulting "0" (required "tokens_out" bigint)
    ∷ defaulting "0" (required "cost_usd" double)
    ∷ required "encrypted_log" varchar
    ∷ optional "chain_tx" varchar
    ∷ optional "chain_block" ubigint
    ∷ required "created_at" timestamptz
    ∷ []

abbrev pub chain_logs : List Column
chain_logs =
    key_column "id" uuid
    ∷ required "kind" varchar
    ∷ optional "task_id" uuid
    ∷ required "payload_hash" varchar
    ∷ required "tx_hash" varchar
    ∷ optional "block_number" ubigint
    ∷ required "chain_id" ubigint
    ∷ required "submitted_at" timestamptz
    ∷ optional "confirmed_at" timestamptz
    ∷ []

abbrev pub token_snapshots : List Column
token_snapshots =
    defaulting "gen_random_uuid()" (key_column "id" uuid)
    ∷ required "snapshot_at" timestamptz
    ∷ optional "project" varchar
    ∷ optional "agent_slug" varchar
    ∷ optional "model" varchar
    ∷ required "period" varchar
    ∷ defaulting "0" (required "tokens_in" bigint)
    ∷ defaulting "0" (required "tokens_out" bigint)
    ∷ defaulting "0" (required "cost_usd" double)
    ∷ defaulting "0" (required "task_count" bigint)
    ∷ []

abbrev pub agent_registry : List Column
agent_registry =
    key_column "slug" varchar
    ∷ required "role" varchar
    ∷ required "model" varchar
    ∷ optional "base_url" varchar
    ∷ optional "description" varchar
    ∷ optional "skills" json
    ∷ optional "delivery_channel" varchar
    ∷ optional "delivery_to" varchar
    ∷ required "updated_at" timestamptz
    ∷ []

abbrev pub solver_outcomes : List Column
solver_outcomes =
    required "ts" timestamptz
    ∷ required "intent_id" varchar
    ∷ required "protocol" varchar
    ∷ required "src_chain" ubigint
    ∷ required "dst_chain" ubigint
    ∷ required "decision" varchar
    ∷ optional "tx_hash" varchar
    ∷ optional "predicted_gas" ubigint
    ∷ optional "actual_gas" ubigint
    ∷ optional "effective_gas_price_wei" varchar
    ∷ optional "predicted_profit_usd" double
    ∷ optional "actual_profit_usd" double
    ∷ optional "skip_reason" varchar
    ∷ optional "error" varchar
    ∷ []

abbrev pub solver_skip_rules : List Column
solver_skip_rules =
    defaulting "gen_random_uuid()" (key_column "id" uuid)
    ∷ required "protocol" varchar
    ∷ required "rule_json" varchar
    ∷ optional "description" varchar
    ∷ defaulting "0.0" (required "confidence" double)
    ∷ defaulting "0" (required "sample_size" ubigint)
    ∷ defaulting "TRUE" (required "active" boolean)
    ∷ required "created_at" timestamptz
    ∷ optional "superseded_at" timestamptz
    ∷ []

abbrev pub webhooks : List Column
webhooks =
    key_column "hook_id" varchar
    ∷ required "project" varchar
    ∷ required "assigned_agent" varchar
    ∷ optional "skill" varchar
    ∷ required "model" varchar
    ∷ required "payload_template" varchar
    ∷ defaulting "5" (required "priority" tinyint)
    ∷ defaulting "TRUE" (required "enabled" boolean)
    ∷ required "created_at" timestamptz
    ∷ optional "last_fired_at" timestamptz
    ∷ defaulting "0" (required "fire_count" ubigint)
    ∷ []

abbrev pub schedules : List Column
schedules =
    required "id" varchar
    ∷ required "cron_expr" varchar
    ∷ required "project" varchar
    ∷ required "assigned_agent" varchar
    ∷ optional "skill" varchar
    ∷ required "model" varchar
    ∷ required "payload" varchar
    ∷ defaulting "5" (required "priority" tinyint)
    ∷ defaulting "TRUE" (required "enabled" boolean)
    ∷ required "next_run_at" timestamptz
    ∷ optional "last_fired_at" timestamptz
    ∷ defaulting "0" (required "fire_count" ubigint)
    ∷ required "created_at" timestamptz
    ∷ []

abbrev pub workflows : List Column
workflows =
    key_column "id" varchar
    ∷ required "name" varchar
    ∷ required "steps_json" varchar
    ∷ defaulting "TRUE" (required "enabled" boolean)
    ∷ required "created_at" timestamptz
    ∷ optional "last_run_at" timestamptz
    ∷ defaulting "0" (required "run_count" ubigint)
    ∷ []

abbrev pub workflow_runs : List Column
workflow_runs =
    key_column "run_id" varchar
    ∷ required "workflow_id" varchar
    ∷ defaulting "'pending'" (required "status" varchar)
    ∷ defaulting "0" (required "current_step" integer)
    ∷ defaulting "'[]'" (required "outputs_json" varchar)
    ∷ optional "initial_input" varchar
    ∷ required "started_at" timestamptz
    ∷ optional "completed_at" timestamptz
    ∷ optional "error" varchar
    ∷ optional "current_task_id" uuid
    ∷ []

-- The CREATE TABLE that `migrate_schedules_remove_pk` in store.rs has of its own.
abbrev pub schedules_recreated : List Column
schedules_recreated =
    required "id" varchar
    ∷ required "cron_expr" varchar
    ∷ required "project" varchar
    ∷ required "assigned_agent" varchar
    ∷ optional "skill" varchar
    ∷ required "model" varchar
    ∷ required "payload" varchar
    ∷ defaulting "5" (required "priority" tinyint)
    ∷ defaulting "TRUE" (required "enabled" boolean)
    ∷ required "next_run_at" timestamptz
    ∷ optional "last_fired_at" timestamptz
    ∷ defaulting "0" (required "fire_count" ubigint)
    ∷ required "created_at" timestamptz
    ∷ []
