-- ===== src/Api/Ingest/Life.antt =====
-- The life of a run that `ingest_task` starts: its work, its review, its end.
use open_mamba.Base.{ℕ, ◌+◌, String, none, some, [], ◌∷◌, min, unwrap_or}
use open_mamba.Types.{Uuid, DateTime}
use open_mamba.Types.Json.{Json, null, str}
use open_mamba.Platform.{Platform}
use open_mamba.Lake.Tables.{TaskRecord, WorkflowStep, WorkflowRun}
use open_mamba.Lake.Exec.{Exec}
use open_mamba.Lake.Store.{map_task_row}
use open_mamba.Api.Runner.Stored.{step_row, started_run, step_output, step_request}
use open_mamba.Api.Ingest.{IngestRequest}

-- The output of a review that approves.
abbrev pub approval_output : Platform → ℕ → TaskRecord → Json
approval_output p step r =
    step_output p step (map_task_row r) r.assigned_agent (str "approved") (unwrap_or r.response "")

module _ (p : Platform) (req : IngestRequest) (wf_id run_id : String) (t0 : DateTime)
    (r1 r2 : TaskRecord) where
  -- The step of the review, written out.
  abbrev review_of : WorkflowStep
  review_of = record {
    name = "review";
    project = req.project;
    assigned_agent = "code-reviewer";
    skill = none;
    model = "claude-sonnet-4-6";
    payload = req.payload;
    priority = min (unwrap_or req.priority 5 + 1) 255;
  }

  -- The run that ingestion stores, as it waits for the work.
  abbrev pub delivering : WorkflowRun
  delivering = started_run run_id wf_id t0 (some req.payload) r1.id

  abbrev pub delivery_output : Json
  delivery_output =
      step_output p 0 (map_task_row r1) r1.assigned_agent null (unwrap_or r1.response "")

  -- The run that waits for its review.
  abbrev pub reviewing : Uuid → WorkflowRun
  reviewing next = record delivering {
    current_step = 1;
    outputs = delivery_output ∷ [];
    current_task_id = some next;
  }

  -- The run once it is approved.
  abbrev pub approved_run : Uuid → DateTime → WorkflowRun
  approved_run next t = record (reviewing next) {
    status = "done";
    outputs = delivery_output ∷ approval_output p 1 r2 ∷ [];
    completed_at = some t;
    current_task_id = none;
    current_step = 2;
  }

  -- The task of the review: for the reviewer, under its own model, one priority below the work.
  abbrev pub review_row : Uuid → DateTime → TaskRecord
  review_row id t =
      step_row id t review_of (p.json_to_string (step_request review_of delivery_output delivering))
