-- ===== src/Tests/Life.antt =====
-- A patch that is delivered, reviewed and approved.
use open_mamba.Base.{some, none, [], ◌∷◌}
use open_mamba.Lake.Tables.{TaskRecord, WorkflowRun, Db, no_rows}
use open_mamba.Types.{api}
use open_mamba.Api.Ingest.{IngestRequest, auto_workflow, auto_run}
use open_mamba.Api.Ingest.Life.{reviewing}
use open_mamba.Tests.Setting.{platform, row, run}

abbrev patch_request : IngestRequest
patch_request = record {
  project = "site";
  source = api;
  assigned_agent = "coder";
  skill = none;
  model = none;
  payload = "do it";
  priority = none;
}

abbrev patch : TaskRecord
patch = row 1 "coder" "done" (some "patch")

abbrev review : TaskRecord
review = row 100 "code-reviewer" "done" (some "lgtm")

-- A run that has ended, and started later.
abbrev ended : WorkflowRun
ended = record (run 1 []) { status = "done"; run_id = "old"; started_at = 45 }

abbrev waiting : WorkflowRun
waiting = auto_run "run" "wf" 40 1 patch_request

abbrev in_review : WorkflowRun
in_review = reviewing platform patch_request "wf" "run" 40 patch review 100

abbrev in_flow : WorkflowRun → TaskRecord → Db
in_flow run r = record no_rows {
  task_envelopes = r ∷ [];
  workflows = auto_workflow "wf" 40 patch_request ∷ [];
  workflow_runs = ended ∷ run ∷ [];
}
