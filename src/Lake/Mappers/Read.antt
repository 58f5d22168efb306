-- ===== src/Lake/Mappers/Read.antt =====
-- What a SELECT returns of a record is read back as the record.
use open_mamba.Base.{◌≡◌, refl, String, false, Option, none, some, List}
use mathlib.Core.Option.{map}
use open_mamba.Types.{Uuid, DateTime}
use open_mamba.Types.Json.{Json}
use open_mamba.Lake.Tables.{Webhook, Schedule, Workflow, WorkflowStep, WorkflowRun}
use open_mamba.Lake.Timestamps.{Text}
use open_mamba.Lake.Mappers.{
  mapped, opt_text_of, is_empty, task_id_of, parse_ts, parse_opt_ts, map_webhook, map_schedule,
  map_workflow, map_run,
}
use open_mamba.Lake.Mappers.Columns.{
  opt_cell, opt_time, opt_uuid, webhook_columns, schedule_columns, workflow_columns, run_columns,
}
use open_mamba.Lake.Mappers.Print.{PrintsAs, parse_ts-timestamp_text, parse_opt_ts-timestamp_text}

opt_text_of-opt_cell : (o : Option String) → opt_text_of (some (opt_cell o)) ≡ mapped o
opt_text_of-opt_cell none = refl
opt_text_of-opt_cell (some s) = refl

opt_text_of-opt_time :
    (timestamp_text : DateTime → String) (o : Option DateTime)
    → opt_text_of (some (opt_time timestamp_text o)) ≡ mapped (map timestamp_text o)
opt_text_of-opt_time timestamp_text none = refl
opt_text_of-opt_time timestamp_text (some t) = refl

opt_text_of-opt_uuid :
    (uuid_text : Uuid → String) (o : Option Uuid)
    → opt_text_of (some (opt_uuid uuid_text o)) ≡ mapped (map uuid_text o)
opt_text_of-opt_uuid uuid_text none = refl
opt_text_of-opt_uuid uuid_text (some u) = refl

module _ (parse_from_rfc3339 : Text → Option DateTime) (timestamp_text : DateTime → String)
    (prints : (t : DateTime) → PrintsAs parse_from_rfc3339 (timestamp_text t) t) where
  time : (t : DateTime) → parse_ts parse_from_rfc3339 (timestamp_text t) ≡ mapped t
  time = parse_ts-timestamp_text parse_from_rfc3339 timestamp_text prints

  opt : (o : Option DateTime) → parse_opt_ts parse_from_rfc3339 (map timestamp_text o) ≡ mapped o
  opt = parse_opt_ts-timestamp_text parse_from_rfc3339 timestamp_text prints

  read_webhook :
      (h : Webhook) → map_webhook parse_from_rfc3339 (webhook_columns timestamp_text h) ≡ mapped h
  unfolding map_webhook webhook_columns
  read_webhook h =
      rw
        (
          opt_text_of-opt_cell h.skill,
          time h.created_at,
          opt_text_of-opt_time timestamp_text h.last_fired_at,
          opt h.last_fired_at,
        )
        refl

  read_schedule :
      (s : Schedule)
      → map_schedule parse_from_rfc3339 (schedule_columns timestamp_text s) ≡ mapped s
  unfolding map_schedule schedule_columns
  read_schedule s =
      rw
        (
          opt_text_of-opt_cell s.skill,
          time s.next_run_at,
          opt_text_of-opt_time timestamp_text s.last_fired_at,
          opt s.last_fired_at,
          time s.created_at,
        )
        refl

  module _ (steps_to_string : List WorkflowStep → String)
      (steps_from_str : String → Option (List WorkflowStep)) where
    read_workflow :
        (w : Workflow)
        → steps_from_str (steps_to_string w.steps) ≡ some w.steps
        → map_workflow parse_from_rfc3339 steps_from_str
            (workflow_columns timestamp_text steps_to_string w)
          ≡ mapped w
    unfolding map_workflow workflow_columns
    read_workflow w steps_read =
        rw
          (
            steps_read,
            time w.created_at,
            opt_text_of-opt_time timestamp_text w.last_run_at,
            opt w.last_run_at,
          )
          refl

  module _ (outputs_to_string : List Json → String) (outputs_from_str : String → Option (List Json))
      (uuid_text : Uuid → String) (parse_str : String → Option Uuid)
      (uuid_filled : (u : Uuid) → is_empty (uuid_text u) ≡ false)
      (uuid_read : (u : Uuid) → parse_str (uuid_text u) ≡ some u) where
    task_id_of-uuid_text : (o : Option Uuid) → task_id_of parse_str (map uuid_text o) ≡ o
    task_id_of-uuid_text none = refl
    task_id_of-uuid_text (some u) = rw (uuid_filled u, uuid_read u) refl

    read_run :
        (r : WorkflowRun)
        → outputs_from_str (outputs_to_string r.outputs) ≡ some r.outputs
        → map_run parse_from_rfc3339 outputs_from_str parse_str
            (run_columns timestamp_text outputs_to_string uuid_text r)
          ≡ mapped r
    unfolding map_run run_columns
    read_run r outputs_read =
        rw
          (
            outputs_read,
            opt_text_of-opt_uuid uuid_text r.current_task_id,
            opt_text_of-opt_cell r.initial_input,
            time r.started_at,
            opt_text_of-opt_time timestamp_text r.completed_at,
            opt r.completed_at,
            opt_text_of-opt_cell r.error,
            task_id_of-uuid_text r.current_task_id,
          )
          refl

-- Let each time be printed as DuckDB prints it, let the RFC 3339 parser read it with a T and the
-- minutes of its zone, let serde_json read the steps and the outputs that it wrote, and let the text of
-- a UUID not be empty and be read as the UUID. Then `map_webhook`, `map_schedule`, `map_workflow` and `map_run` make of the columns that
-- the SELECTs name for a webhook, a schedule, a workflow and a run just that record: no column is
-- taken for another, and no optional one is lost.
pub map_rows-columns :
    (parse_from_rfc3339 : Text → Option DateTime) (timestamp_text : DateTime → String)
    (steps_to_string : List WorkflowStep → String)
    (steps_from_str : String → Option (List WorkflowStep)) (outputs_to_string : List Json → String)
    (outputs_from_str : String → Option (List Json)) (uuid_text : Uuid → String)
    (parse_str : String → Option Uuid)
    → ((t : DateTime) → PrintsAs parse_from_rfc3339 (timestamp_text t) t)
    → ((u : Uuid) → is_empty (uuid_text u) ≡ false)
    → ((u : Uuid) → parse_str (uuid_text u) ≡ some u)
    → (h : Webhook) (s : Schedule) (w : Workflow) (r : WorkflowRun)
    → steps_from_str (steps_to_string w.steps) ≡ some w.steps
    → outputs_from_str (outputs_to_string r.outputs) ≡ some r.outputs
    → (map_webhook parse_from_rfc3339 (webhook_columns timestamp_text h) ≡ mapped h)
      × (map_schedule parse_from_rfc3339 (schedule_columns timestamp_text s) ≡ mapped s)
      × (map_workflow parse_from_rfc3339 steps_from_str
            (workflow_columns timestamp_text steps_to_string w)
          ≡ mapped w)
      × (map_run parse_from_rfc3339 outputs_from_str parse_str
            (run_columns timestamp_text outputs_to_string uuid_text r)
          ≡ mapped r)
map_rows-columns parse timestamp_text to_steps steps to_outputs outputs uuid_text uuid prints filled
      uuid_read h s w r steps_read outputs_read =
    (
      read_webhook parse timestamp_text prints h,
      read_schedule parse timestamp_text prints s,
      read_workflow parse timestamp_text prints to_steps steps w steps_read,
      read_run parse timestamp_text prints to_outputs outputs uuid_text uuid filled uuid_read r
          outputs_read,
    )
