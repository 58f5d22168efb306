-- ===== src/Api/Ingest.antt =====
-- crates/mamba-api/src/routes.rs: POST /ingest.
pub mod Review
pub mod Life
use open_mamba.Base.{
  ℕ, ◌+◌, min, String, Bool, ◌||◌, Option, none, some, List, [], ◌∷◌, ◌==◌, unwrap_or,
  if◌then◌else◌,
}
use open_mamba.Types.{Uuid, DateTime, TaskEnvelope, TaskSource, new_envelope}
use open_mamba.Platform.{Platform, ◌⧺◌}
use open_mamba.Lake.Tables.{Workflow, WorkflowStep, WorkflowRun}
use open_mamba.Lake.Exec.{Exec, pure, now, new_v4, ◌>>=◌}
use open_mamba.Lake.Workflows.{upsert_workflow, insert_run}
use open_mamba.Bus.Dispatch.{submit}
use open_mamba.Api.Answer.{Answer, answer, or_500}

pub record IngestRequest : Type 0 where
  pub project : String
  pub assigned_agent : String
  pub skill : Option String
  pub model : Option String
  pub payload : String
  pub priority : Option ℕ
  pub source : TaskSource

pub data Accepted : Type 0 where
  queued : Uuid → Accepted
  -- The task, the workflow and the run.
  reviewed : Uuid → String → String → Accepted

unfoldable pub needs_reviewer : String → Bool
needs_reviewer agent = agent == "coder" || agent == "devops-lead"

abbrev pub model_of : IngestRequest → String
model_of req = unwrap_or req.model "claude-opus-4-7"

abbrev pub priority_of : IngestRequest → ℕ
priority_of req = unwrap_or req.priority 5

abbrev pub deliver_step : IngestRequest → WorkflowStep
deliver_step req = record {
  name = "deliver";
  project = req.project;
  assigned_agent = req.assigned_agent;
  skill = req.skill;
  model = model_of req;
  payload = req.payload;
  priority = priority_of req;
}

-- `priority.saturating_add(1)` of a u8.
abbrev pub review_step : IngestRequest → WorkflowStep
review_step req = record {
  name = "review";
  project = req.project;
  assigned_agent = "code-reviewer";
  skill = none;
  model = "claude-sonnet-4-6";
  payload = req.payload;
  priority = min (priority_of req + 1) 255;
}

unfoldable pub auto_workflow : String → DateTime → IngestRequest → Workflow
auto_workflow id t req = record {
  id = id;
  name = "auto:" ⧺ req.project;
  steps = deliver_step req ∷ review_step req ∷ [];
  enabled = Bool.true;
  created_at = t;
  last_run_at = none;
  run_count = 0;
}

unfoldable pub auto_run : String → String → DateTime → Uuid → IngestRequest → WorkflowRun
auto_run run_id wf_id t task_id req = record {
  run_id = run_id;
  workflow_id = wf_id;
  status = "running";
  current_step = 0;
  outputs = [];
  initial_input = some req.payload;
  started_at = t;
  completed_at = none;
  error = none;
  current_task_id = some task_id;
}

abbrev pub ingest_envelope : Uuid → DateTime → IngestRequest → TaskEnvelope
ingest_envelope id t req =
    new_envelope id t req.project req.source req.assigned_agent req.skill (model_of req) req.payload
      (priority_of req)

-- The workflow is stored first, then the run, then the task of its first step.
abbrev pub ingest_reviewed : Platform → IngestRequest → Exec (Answer Accepted)
ingest_reviewed p req = do
  wf ← new_v4
  t ← now
  let wf_id = p.uuid_to_string wf
  or_500 (upsert_workflow (auto_workflow wf_id t req)) λ _. do
    task_id ← new_v4
    run ← new_v4
    let run_id = p.uuid_to_string run
    or_500 (insert_run (auto_run run_id wf_id t task_id req)) λ _.
        or_500 (submit (ingest_envelope task_id t req))
          λ _. pure (answer 202 (reviewed task_id wf_id run_id))

abbrev pub ingest_direct : IngestRequest → Exec (Answer Accepted)
ingest_direct req = do
  id ← new_v4
  t ← now
  or_500 (submit (ingest_envelope id t req)) λ _. pure (answer 202 (queued id))

unfoldable pub ingest_task : Platform → IngestRequest → Exec (Answer Accepted)
unfolding needs_reviewer auto_workflow auto_run new_envelope
ingest_task p req =
    if needs_reviewer req.assigned_agent then ingest_reviewed p req else ingest_direct req
