-- ===== src/Lake/Workflows.antt =====
-- crates/mamba-lake/src/workflows.rs: the tables workflows and workflow_runs. The steps and the
-- outputs are stored as JSON text and read back; the model keeps the values.
use open_mamba.Base.{
  ℕ, ◌+◌, String, Bool, true, false, ◌&&◌, Option, none, some, List, [], ◌∷◌, ◌++◌, ◌==◌, leb, eqb,
  select, reject, update, sort_by, first, take, length, any, ℤ,
}
use open_mamba.Types.{Uuid}
use open_mamba.Lake.Tables.{Workflow, WorkflowRun, Db}
use open_mamba.Lake.Exec.{
  limited, Exec, now, query, execute, execute_count, insert_unique, with_conn, ◌>>=◌, ◌>>◌,
}

abbrev pub is_workflow : String → Workflow → Bool
is_workflow id w = w.id == id

abbrev pub on_workflows : (List Workflow → List Workflow) → Db → Db
on_workflows f d = record d { workflows = f d.workflows }

unfoldable pub upsert_workflow : Workflow → Exec Unit
upsert_workflow w = with_conn do
  execute (on_workflows (reject (is_workflow w.id)))
  insert_unique (λ d. any (is_workflow w.id) d.workflows) (on_workflows λ rows. rows ++ w ∷ [])

abbrev pub find_workflow : String → List Workflow → Option Workflow
find_workflow id rows = first (select (is_workflow id) rows)

unfoldable pub get_workflow : String → Exec (Option Workflow)
get_workflow id = with_conn (query λ d. find_workflow id d.workflows)

unfoldable pub list_workflows : Exec (List Workflow)
list_workflows = with_conn (query λ d. sort_by (λ a b. leb b.created_at a.created_at) d.workflows)

unfoldable pub delete_workflow : String → Exec ℕ
delete_workflow id = with_conn (
    execute_count (λ d. length (select (is_workflow id) d.workflows))
      (on_workflows (reject (is_workflow id))))

unfoldable pub note_workflow_run_started : String → Exec Unit
note_workflow_run_started id = with_conn do
  t ← now
  execute (
      on_workflows (
        update (is_workflow id)
          λ w. record w { last_run_at = some t; run_count = w.run_count + 1 }))

abbrev pub is_run : String → WorkflowRun → Bool
is_run id r = r.run_id == id

abbrev pub on_runs : (List WorkflowRun → List WorkflowRun) → Db → Db
on_runs f d = record d { workflow_runs = f d.workflow_runs }

unfoldable pub insert_run : WorkflowRun → Exec Unit
insert_run run = with_conn (
    insert_unique (λ d. any (is_run run.run_id) d.workflow_runs) (on_runs λ rows. rows ++ run ∷ []))

abbrev pub find_run : String → List WorkflowRun → Option WorkflowRun
find_run id rows = first (select (is_run id) rows)

unfoldable pub get_run : String → Exec (Option WorkflowRun)
get_run id = with_conn (query λ d. find_run id d.workflow_runs)

abbrev pub waits_for : Uuid → Option Uuid → Bool
waits_for id none = false
waits_for id (some t) = eqb t id

unfoldable pub get_run_by_task : Uuid → Exec (Option WorkflowRun)
get_run_by_task id = with_conn (
    query λ d.
      first (select (λ r. waits_for id r.current_task_id && r.status == "running") d.workflow_runs))

abbrev pub of_workflow : Option String → WorkflowRun → Bool
of_workflow none r = true
of_workflow (some id) r = r.workflow_id == id

abbrev pub newest_first : List WorkflowRun → List WorkflowRun
newest_first = sort_by λ a b. leb b.started_at a.started_at

unfoldable pub list_runs : Option String → ℤ → Exec (List WorkflowRun)
list_runs workflow_id limit = with_conn (
    limited limit λ limit.
      query λ d. take limit (newest_first (select (of_workflow workflow_id) d.workflow_runs)))

-- The columns that `update_run` writes.
abbrev pub write_run : WorkflowRun → WorkflowRun → WorkflowRun
write_run new old = record old {
  status = new.status;
  current_step = new.current_step;
  outputs = new.outputs;
  completed_at = new.completed_at;
  error = new.error;
  current_task_id = new.current_task_id;
}

unfoldable pub update_run : WorkflowRun → Exec Unit
update_run run = with_conn (execute (on_runs (update (is_run run.run_id) (write_run run))))
