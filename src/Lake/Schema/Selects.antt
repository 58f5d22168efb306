-- ===== src/Lake/Schema/Selects.antt =====
-- The column lists of the SELECTs of crates/mamba-lake/src/triggers.rs and workflows.rs, resolved in the tables
-- of schema.rs, and the cells that a row of the result can have.
use open_mamba.Base.{
  ℕ, ℤ, ◌≡◌, ◌⊎◌, String, Bool, true, false, Option, none, some, List, [], ◌∷◌, ◌==◌, if◌then◌else◌,
}
use open_mamba.Lake.Mappers.{Cell, null_cell, text, integer, unsigned, boolean, other, Row}
use open_mamba.Lake.Schema.{
  Column, SqlType, uuid, varchar, tinyint, bigint, ubigint, double, timestamptz, json,
}
use open_mamba.Lake.Schema as schema

-- `name`, or CAST(name AS VARCHAR).
pub data Item : Type 0 where
  plain : String → Item
  as_varchar : String → Item

abbrev pub webhook_select : List Item
webhook_select =
    plain "hook_id"
    ∷ plain "project"
    ∷ plain "assigned_agent"
    ∷ plain "skill"
    ∷ plain "model"
    ∷ plain "payload_template"
    ∷ plain "priority"
    ∷ plain "enabled"
    ∷ as_varchar "created_at"
    ∷ as_varchar "last_fired_at"
    ∷ plain "fire_count"
    ∷ []

abbrev pub schedule_select : List Item
schedule_select =
    plain "id"
    ∷ plain "cron_expr"
    ∷ plain "project"
    ∷ plain "assigned_agent"
    ∷ plain "skill"
    ∷ plain "model"
    ∷ plain "payload"
    ∷ plain "priority"
    ∷ plain "enabled"
    ∷ as_varchar "next_run_at"
    ∷ as_varchar "last_fired_at"
    ∷ plain "fire_count"
    ∷ as_varchar "created_at"
    ∷ []

abbrev pub workflow_select : List Item
workflow_select =
    plain "id"
    ∷ plain "name"
    ∷ plain "steps_json"
    ∷ plain "enabled"
    ∷ as_varchar "created_at"
    ∷ as_varchar "last_run_at"
    ∷ plain "run_count"
    ∷ []

abbrev pub run_select : List Item
run_select =
    plain "run_id"
    ∷ plain "workflow_id"
    ∷ plain "status"
    ∷ plain "current_step"
    ∷ plain "outputs_json"
    ∷ plain "initial_input"
    ∷ as_varchar "started_at"
    ∷ as_varchar "completed_at"
    ∷ plain "error"
    ∷ as_varchar "current_task_id"
    ∷ []

-- A column of a result, and whether it was cast.
pub record Selected : Type 0 where
  pub column : Column
  pub cast : Bool

abbrev pub find_column : String → List Column → Option Column
find_column n [] = none
find_column n (c ∷ columns) =
    let rest = find_column n columns in if c.name == n then some c else rest

abbrev with_cast : Bool → Option Column → Option Selected
with_cast b none = none
with_cast b (some c) = some (record { column = c; cast = b })

abbrev find_item : List Column → Item → Option Selected
find_item columns (plain n) = with_cast false (find_column n columns)
find_item columns (as_varchar n) = with_cast true (find_column n columns)

abbrev both : Option Selected → Option (List Selected) → Option (List Selected)
both none rest = none
both (some s) none = none
both (some s) (some rest) = some (s ∷ rest)

-- `prepare`: it fails on a column that the table does not have.
unfoldable pub prepare : List Column → List Item → Option (List Selected)
prepare columns [] = some []
prepare columns (i ∷ items) = both (find_item columns i) (prepare columns items)

-- The cells of a column that is not NULL. A time that is cast has a text that `IsTime` holds of.
module _ (IsTime : String → Type 0) where
  abbrev pub Holds : Bool → SqlType → Cell → Type 0
  Holds false varchar c = (s : String) × (c ≡ text s)
  Holds false tinyint c = (n : ℤ) × (c ≡ integer n)
  Holds false schema.integer c = (n : ℤ) × (c ≡ integer n)
  Holds false bigint c = (n : ℤ) × (c ≡ integer n)
  Holds false ubigint c = (n : ℕ) × (c ≡ unsigned n)
  Holds false schema.boolean c = (b : Bool) × (c ≡ boolean b)
  Holds false _ c = c ≡ other
  Holds true timestamptz c = (s : String) × (c ≡ text s) × IsTime s
  Holds true _ c = (s : String) × (c ≡ text s)

  abbrev pub FitsColumn : Bool → Selected → Cell → Type 0
  FitsColumn true q c = Holds q.cast q.column.sql_type c
  FitsColumn false q c = (c ≡ null_cell) ⊎ Holds q.cast q.column.sql_type c

  -- A row of the result.
  abbrev pub Fits : List Selected → Row → Type 0
  Fits [] [] = Unit
  Fits [] (c ∷ row) = ⊥
  Fits (q ∷ columns) [] = ⊥
  Fits (q ∷ columns) (c ∷ row) = FitsColumn q.column.not_null q c × Fits columns row
