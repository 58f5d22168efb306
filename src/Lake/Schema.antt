-- ===== src/Lake/Schema.antt =====
-- crates/mamba-lake/src/schema.rs: the columns of the tables, as the DDL declares them. TEXT is another name
-- of VARCHAR.
pub mod Init
pub mod Upgrade
pub mod Selects
pub mod Cells
pub mod Reads
use open_mamba.Base.{
  String, Bool, true, false, Option, none, some, List, [], ◌∷◌, ◌++◌, ◌==◌, any, if◌then◌else◌,
}

pub data SqlType : Type 0 where
  uuid varchar tinyint integer bigint ubigint double boolean timestamptz json : SqlType

pub record Column : Type 0 where
  pub name : String
  pub sql_type : SqlType
  pub not_null : Bool
  pub primary_key : Bool
  pub default : Option String

-- `name TYPE`, with NOT NULL, and with PRIMARY KEY.
abbrev pub optional : String → SqlType → Column
optional n t = record {
  name = n;
  sql_type = t;
  not_null = false;
  primary_key = false;
  default = none;
}

abbrev pub required : String → SqlType → Column
required n t = record {
  name = n;
  sql_type = t;
  not_null = true;
  primary_key = false;
  default = none;
}

abbrev pub key_column : String → SqlType → Column
key_column n t = record {
  name = n;
  sql_type = t;
  not_null = true;
  primary_key = true;
  default = none;
}

-- DEFAULT, as the text of its expression.
abbrev pub defaulting : String → Column → Column
defaulting d c = record c { default = some d }

-- The table that a purge creates again.
abbrev pub task_envelopes_create_sql : List Column
task_envelopes_create_sql =
    required "id" uuid
    ∷ required "project" varchar
    ∷ required "source" varchar
    ∷ required "assigned_agent" varchar
    ∷ optional "skill" varchar
    ∷ required "model" varchar
    ∷ required "payload" varchar
    ∷ defaulting "5" (required "priority" tinyint)
    ∷ defaulting "'pending'" (required "status" varchar)
    ∷ optional "openfang_job_id" uuid
    ∷ optional "tokens_in" bigint
    ∷ optional "tokens_out" bigint
    ∷ optional "cost_usd" double
    ∷ optional "encrypted_payload" varchar
    ∷ optional "chain_tx" varchar
    ∷ required "created_at" timestamptz
    ∷ optional "dispatched_at" timestamptz
    ∷ optional "completed_at" timestamptz
    ∷ optional "response" varchar
    ∷ defaulting "0" (optional "retry_count" integer)
    ∷ optional "not_before" timestamptz
    ∷ []

-- CREATE TABLE IF NOT EXISTS task_envelopes, and the columns that are then added.
abbrev pub task_envelopes_init : List Column
task_envelopes_init =
    required "id" uuid
    ∷ required "project" varchar
    ∷ required "source" varchar
    ∷ required "assigned_agent" varchar
    ∷ optional "skill" varchar
    ∷ required "model" varchar
    ∷ required "payload" varchar
    ∷ defaulting "5" (required "priority" tinyint)
    ∷ defaulting "'pending'" (required "status" varchar)
    ∷ optional "openfang_job_id" uuid
    ∷ optional "tokens_in" bigint
    ∷ optional "tokens_out" bigint
    ∷ optional "cost_usd" double
    ∷ optional "encrypted_payload" varchar
    ∷ optional "chain_tx" varchar
    ∷ required "created_at" timestamptz
    ∷ optional "dispatched_at" timestamptz
    ∷ optional "completed_at" timestamptz
    ∷ optional "response" varchar
    ∷ []

abbrev pub has_column : String → List Column → Bool
has_column n = any (λ c. c.name == n)

-- ALTER TABLE … ADD COLUMN IF NOT EXISTS.
unfoldable pub add_column : Column → List Column → List Column
add_column c columns = if has_column c.name columns then columns else columns ++ c ∷ []

unfoldable pub alter_task_envelopes : List Column → List Column
unfolding add_column
alter_task_envelopes columns = add_column (optional "not_before" timestamptz) (
    add_column (defaulting "0" (optional "retry_count" integer))
      (add_column (optional "response" varchar) columns))

-- The script on a database with or without the table.
unfoldable pub init_task_envelopes : Option (List Column) → List Column
unfolding alter_task_envelopes
init_task_envelopes none = alter_task_envelopes task_envelopes_init
init_task_envelopes (some columns) = alter_task_envelopes columns
