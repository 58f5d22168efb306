-- ===== src/Lake/Mappers/Columns.antt =====
-- The columns that the SELECTs of crates/mamba-lake/src/triggers.rs and workflows.rs name, in their order,
-- with CAST(… AS VARCHAR) of a time and of a UUID, and the JSON texts that the INSERTs store.
use open_mamba.Base.{pos, String, Option, none, some, List, [], ◌∷◌}
use open_mamba.Types.{Uuid, DateTime}
use open_mamba.Types.Json.{Json}
use open_mamba.Lake.Tables.{Webhook, Schedule, Workflow, WorkflowStep, WorkflowRun}
use open_mamba.Lake.Mappers.{Cell, null_cell, text, integer, unsigned, boolean, Row}

abbrev pub opt_cell : Option String → Cell
opt_cell none = null_cell
opt_cell (some s) = text s

abbrev pub opt_uuid : (Uuid → String) → Option Uuid → Cell
opt_uuid uuid_text none = null_cell
opt_uuid uuid_text (some u) = text (uuid_text u)

module _ (timestamp_text : DateTime → String) where
  abbrev pub opt_time : Option DateTime → Cell
  opt_time none = null_cell
  opt_time (some t) = text (timestamp_text t)

  unfoldable pub webhook_columns : Webhook → Row
  webhook_columns h =
      text h.hook_id
      ∷ text h.project
      ∷ text h.assigned_agent
      ∷ opt_cell h.skill
      ∷ text h.model
      ∷ text h.payload_template
      ∷ integer h.priority
      ∷ boolean h.enabled
      ∷ text (timestamp_text h.created_at)
      ∷ opt_time h.last_fired_at
      ∷ unsigned h.fire_count
      ∷ []

  unfoldable pub schedule_columns : Schedule → Row
  schedule_columns s =
      text s.id
      ∷ text s.cron_expr
      ∷ text s.project
      ∷ text s.assigned_agent
      ∷ opt_cell s.skill
      ∷ text s.model
      ∷ text s.payload
      ∷ integer s.priority
      ∷ boolean s.enabled
      ∷ text (timestamp_text s.next_run_at)
      ∷ opt_time s.last_fired_at
      ∷ unsigned s.fire_count
      ∷ text (timestamp_text s.created_at)
      ∷ []

  unfoldable pub workflow_columns : (List WorkflowStep → String) → Workflow → Row
  workflow_columns steps_to_string w =
      text w.id
      ∷ text w.name
      ∷ text (steps_to_string w.steps)
      ∷ boolean w.enabled
      ∷ text (timestamp_text w.created_at)
      ∷ opt_time w.last_run_at
      ∷ unsigned w.run_count
      ∷ []

  unfoldable pub run_columns : (List Json → String) → (Uuid → String) → WorkflowRun → Row
  run_columns outputs_to_string uuid_text r =
      text r.run_id
      ∷ text r.workflow_id
      ∷ text r.status
      ∷ integer (pos r.current_step)
      ∷ text (outputs_to_string r.outputs)
      ∷ opt_cell r.initial_input
      ∷ text (timestamp_text r.started_at)
      ∷ opt_time r.completed_at
      ∷ opt_cell r.error
      ∷ opt_uuid uuid_text r.current_task_id
      ∷ []
