-- ===== src/Api/Ingest/Review.antt =====
-- The review that the work of some agents goes through.
use open_mamba.Base.{
  ℕ, suc, ◌+◌, min, String, Bool, true, false, some, none, [], ◌∷◌, ◌++◌, ◌==◌, reject, unwrap_or,
}
use open_mamba.Types.{Uuid, DateTime, source_as_str}
use open_mamba.Platform.{Platform, ◌⧺◌}
use open_mamba.Lake.Tables.{TaskRecord, Workflow, Db}
use open_mamba.Lake.Exec.{Outcome, World, ok, ready}
use open_mamba.Lake.Store.Rows.{on_tasks}
use open_mamba.Lake.Workflows.{on_workflows, on_runs}
use open_mamba.Api.Answer.{Answer, answer, refused}
use open_mamba.Api.Runner.Stored.{queued_row, started_run}
use open_mamba.Api.Ingest.{IngestRequest, Accepted, reviewed, queued}

module _ (p : Platform) (req : IngestRequest) (d : Db) (t : DateTime) (ids : ℕ → Uuid) where
  abbrev wf_id : String
  wf_id = p.uuid_to_string (ids 0)

  abbrev run_id : String
  run_id = p.uuid_to_string (ids 2)

  -- The task of the work.
  abbrev pub work_row : Uuid → TaskRecord
  work_row id =
      queued_row id t (source_as_str req.source) req.project req.assigned_agent req.skill
        (unwrap_or req.model "claude-opus-4-7") req.payload (unwrap_or req.priority 5)

  -- The work, then its review one priority below.
  abbrev pub review_flow : Workflow
  review_flow = record {
    id = wf_id;
    name = "auto:" ⧺ req.project;
    steps =
        record {
          name = "deliver";
          project = req.project;
          assigned_agent = req.assigned_agent;
          skill = req.skill;
          model = unwrap_or req.model "claude-opus-4-7";
          payload = req.payload;
          priority = unwrap_or req.priority 5;
        }
        ∷ record {
          name = "review";
          project = req.project;
          assigned_agent = "code-reviewer";
          skill = none;
          model = "claude-sonnet-4-6";
          payload = req.payload;
          priority = min (unwrap_or req.priority 5 + 1) 255;
        }
        ∷ [];
    enabled = true;
    created_at = t;
    last_run_at = none;
    run_count = 0;
  }

  -- The workflow and the run, which are stored before the task.
  abbrev pub with_review : Db
  with_review =
      on_runs (λ rows. rows ++ started_run run_id wf_id t (some req.payload) (ids 1) ∷ [])
        (on_workflows (λ rows. reject (λ w. w.id == wf_id) rows ++ review_flow ∷ []) d)

  abbrev pub with_work : Uuid → Db → Db
  with_work id = on_tasks (λ rows. rows ++ work_row id ∷ [])

  -- What /ingest answers and leaves where no statement fails, given whether the priority can be stored.
  abbrev pub reviewed_ingest : Bool → Outcome (Answer Accepted) × World
  reviewed_ingest true = (
    ok (answer 202 (reviewed (ids 1) wf_id run_id)),
    ready (with_work (ids 1) with_review) t (λ n. ids (suc (suc (suc n)))),
  )
  reviewed_ingest false =
      (ok (refused 500 "Conversion Error"), ready with_review t (λ n. ids (suc (suc (suc n)))))

  abbrev pub direct_ingest : Bool → Outcome (Answer Accepted) × World
  direct_ingest true =
      (ok (answer 202 (queued (ids 0))), ready (with_work (ids 0) d) t (λ n. ids (suc n)))
  direct_ingest false = (ok (refused 500 "Conversion Error"), ready d t (λ n. ids (suc n)))
