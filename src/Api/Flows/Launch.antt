-- ===== src/Api/Flows/Launch.antt =====
-- A workflow that is started by hand.
use open_mamba.Base.{
  ℕ, ◌+◌, ◌≡◌, String, true, Option, some, [], ◌∷◌, ◌++◌, get_elem?, update, ◌==◌,
}
use open_mamba.Types.{Uuid, DateTime}
use open_mamba.Types.Json.{null}
use open_mamba.Platform.{Platform}
use open_mamba.Lake.Tables.{TaskRecord, Workflow, WorkflowStep, WorkflowRun, Db}
use open_mamba.Lake.Store.Rows.{on_tasks}
use open_mamba.Lake.Workflows.{
  find_workflow, on_runs, on_workflows, get_workflow as lake_workflow, get_run as lake_run,
}
use open_mamba.Api.Runner.Stored.{step_row, started_run, step_request}
use open_mamba.Api.Flows.{get_run}

module _ (p : Platform) (id : String) (input : Option String) (d : Db) (t : DateTime)
    (ids : ℕ → Uuid) (w : Workflow) (step : WorkflowStep)
    (known : find_workflow id d.workflows ≡ some w) (enabled : w.enabled ≡ true)
    (first : get_elem? w.steps 0 ≡ some step) where
  -- The run that is stored, and the task that it waits for.
  abbrev pub launched_run : WorkflowRun
  launched_run = started_run (p.uuid_to_string (ids 0)) w.id t input (ids 1)

  abbrev pub launched_row : TaskRecord
  launched_row = step_row (ids 1) t step (p.json_to_string (step_request step null launched_run))

  abbrev pub launched : Db
  launched =
      on_workflows
        (update (λ x. x.id == w.id)
          λ x. record x { last_run_at = some t; run_count = x.run_count + 1 })
        (on_runs (λ rows. rows ++ launched_run ∷ [])
          (on_tasks (λ rows. rows ++ launched_row ∷ []) d))
