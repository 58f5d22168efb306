-- ===== src/Api/Flows.antt =====
-- crates/mamba-api/src/workflows.rs: the handlers of workflows and runs.
pub mod Launch
use open_mamba.Base.{
  ℕ, String, Bool, Option, none, some, List, [], ◌∷◌, unwrap_or, get_elem?, if◌then◌else◌, ℤ, pos,
}
use open_mamba.Types.{Uuid, DateTime}
use open_mamba.Platform.{Platform, ◌⧺◌}
use open_mamba.Lake.Tables.{Workflow, WorkflowStep, WorkflowRun}
use open_mamba.Lake.Exec.{Exec, pure, crash, attempt, catch, now, new_v4, ◌>>=◌, ◌>>◌}
use open_mamba.Lake.Workflows.{
  upsert_workflow, insert_run, note_workflow_run_started, list_workflows as lake_workflows,
  get_workflow as lake_workflow, delete_workflow as lake_delete_workflow, get_run as lake_run,
  list_runs as lake_runs,
}
use open_mamba.Bus.Dispatch.{submit}
use open_mamba.Api.Answer.{Answer, answer, refused, lake_response, or_500}
use open_mamba.Api.Hooks.{id_or_new, deleted}
use open_mamba.Api.Tasks.{one_or_404}
use open_mamba.Api.Runner.{build_step_envelope}

pub record WorkflowSpec : Type 0 where
  pub id : Option String
  pub name : String
  pub steps : List WorkflowStep
  pub enabled : Bool

abbrev pub workflow_of : String → DateTime → WorkflowSpec → Workflow
workflow_of id t req = record {
  id = id;
  name = req.name;
  steps = req.steps;
  enabled = req.enabled;
  created_at = t;
  last_run_at = none;
  run_count = 0;
}

abbrev pub create_with : Platform → WorkflowSpec → List WorkflowStep → Exec (Answer String)
create_with p req [] = pure (refused 400 "workflow needs at least 1 step")
create_with p req (step ∷ steps) = do
  id ← id_or_new p req.id
  t ← now
  or_500 (upsert_workflow (workflow_of id t req)) λ _. pure (answer 201 id)

unfoldable pub create_workflow : Platform → WorkflowSpec → Exec (Answer String)
create_workflow p req = create_with p req req.steps

unfoldable pub list_workflows : Exec (Answer (List Workflow))
list_workflows = lake_response lake_workflows

unfoldable pub get_workflow : String → Exec (Answer Workflow)
get_workflow id = or_500 (lake_workflow id) one_or_404

unfoldable pub delete_workflow : String → Exec (Answer Unit)
delete_workflow id = or_500 (lake_delete_workflow id) deleted

abbrev pub new_run : String → String → DateTime → Option String → WorkflowRun
new_run run_id workflow_id t input = record {
  run_id = run_id;
  workflow_id = workflow_id;
  status = "running";
  current_step = 0;
  outputs = [];
  initial_input = input;
  started_at = t;
  completed_at = none;
  error = none;
  current_task_id = none;
}

pub record Launched : Type 0 where
  pub run_id : String
  pub task_id : Uuid

-- The task is submitted before the run that tracks it is stored.
abbrev pub launch_step :
    Platform → Workflow → Option String → String → Option WorkflowStep → Exec (Answer Launched)
launch_step p w input run_id none = crash
launch_step p w input run_id (some step) = do
  t ← now
  let run = new_run run_id w.id t input
  or_500 (build_step_envelope p step run) λ e.
      catch (submit e)
        (λ _. or_500 (insert_run (record run { current_task_id = some e.id })) λ _.
          attempt (note_workflow_run_started w.id)
          >> pure (answer 202 (record { run_id = run_id; task_id = e.id })))
        (λ m. pure (refused 500 ("bus submit failed: " ⧺ m)))

abbrev pub launch : Platform → Option String → Workflow → Exec (Answer Launched)
launch p input w = do u ← new_v4; launch_step p w input (p.uuid_to_string u) (get_elem? w.steps 0)

abbrev pub launch_found : Platform → Option String → Option Workflow → Exec (Answer Launched)
launch_found p input none = pure (refused 404 "workflow not found")
launch_found p input (some w) =
    if w.enabled then launch p input w else pure (refused 503 "workflow is disabled")

unfoldable pub run_workflow : Platform → String → Option String → Exec (Answer Launched)
unfolding build_step_envelope
run_workflow p id input = or_500 (lake_workflow id) (launch_found p input)

unfoldable pub get_run : String → Exec (Answer WorkflowRun)
get_run id = or_500 (lake_run id) one_or_404

pub record RunListQuery : Type 0 where
  pub workflow_id : Option String
  pub limit : Option ℤ

unfoldable pub list_runs : RunListQuery → Exec (Answer (List WorkflowRun))
list_runs q = lake_response (lake_runs q.workflow_id (unwrap_or q.limit (pos 50)))
