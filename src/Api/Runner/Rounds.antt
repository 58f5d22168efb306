-- ===== src/Api/Runner/Rounds.antt =====
-- A review that asks for changes.
use open_mamba.Base.{
  ℕ, suc, ◌+◌, ◌≡◌, refl, String, true, false, some, [], ◌∷◌, ◌++◌, ◌==◌, leb, get_elem?,
  last-append,
}
use open_mamba.Types.{Uuid, DateTime, new_envelope, status_as_str, source_as_str}
use open_mamba.Types.Json.{Json, str}
use open_mamba.Platform.{Platform}
use open_mamba.Lake.Tables.{TaskRecord, TaskRow, Workflow, WorkflowStep, WorkflowRun, Db}
use open_mamba.Lake.Exec.{ok, ready}
use open_mamba.Lake.Store.{get_response, insert_envelope, envelope_row}
use open_mamba.Lake.Store.Rows.{find_task, on_tasks}
use open_mamba.Lake.Workflows.{find_workflow, get_workflow, update_run}
use open_mamba.Bus.Dispatch.{submit}
use open_mamba.Api.Runner.{
  advance, parse_reviewer_verdict, changes_requested, fixup_rounds_used, output_entry, failed_run,
  fixup_payload, budget_exhausted,
}
use open_mamba.Api.Runner.Stored.{step_row, step_output, fixup_request}
use open_mamba.Api.Runner.Linear.{written}

abbrev pub review_output : Platform → WorkflowRun → TaskRow → String → Json
review_output p run task feedback =
    step_output p run.current_step task "code-reviewer" (str "changes_requested") feedback

-- The run with the review among its outputs.
abbrev pub reviewed_run : Platform → WorkflowRun → TaskRow → String → WorkflowRun
reviewed_run p run task feedback = record run {
  outputs = run.outputs ++ review_output p run task feedback ∷ [];
}

module _ (p : Platform) (run : WorkflowRun) (task : TaskRow) (d : Db) (t : DateTime)
    (ids : ℕ → Uuid) (r : TaskRecord) (feedback : String)
    (known : find_task task.id d.task_envelopes ≡ some r) (answer : r.response ≡ some feedback)
    (reviewer : (task.assigned_agent == "code-reviewer") ≡ true)
    (asks : parse_reviewer_verdict p feedback ≡ changes_requested feedback) where
  -- With no database failure, a review that asks for changes, with fewer than three rounds used, sends
  -- the workflow's first step out again, to its agent with its payload, the feedback and the number of
  -- the round, if its priority is 127 at most, and rewinds the run to that step and that task, with the
  -- review as its last output.
  pub advance-fixup_payload :
      (w : Workflow) (coder : WorkflowStep)
      → leb 3 (fixup_rounds_used run) ≡ false
      → find_workflow run.workflow_id d.workflows ≡ some w
      → get_elem? w.steps 0 ≡ some coder
      → leb coder.priority 127 ≡ true
      → let updated = reviewed_run p run task feedback in
        let request =
          fixup_request coder
            (fixup_rounds_used run + 1)
            feedback
            (review_output p run task feedback)
            run in
        let row = step_row (ids 0) t coder (p.json_to_string request) in
        advance p run task (ready d t ids) ≡ (
          ok tt,
          ready
              (written
                (record updated { current_step = 0; current_task_id = some (ids 0) })
                (on_tasks (λ rows. rows ++ row ∷ []) d))
              t
              (λ n. ids (suc n)),
        )
  unfolding advance get_response get_workflow submit insert_envelope update_run envelope_row
      new_envelope output_entry fixup_payload status_as_str source_as_str
  advance-fixup_payload w coder left flow first fits =
      rw
        (
          reviewer,
          known,
          answer,
          asks,
          left,
          flow,
          first,
          fits,
          last-append run.outputs (review_output p run task feedback),
        )
        refl

  -- With three rounds used it fails the run and submits nothing.
  pub advance-budget_exhausted :
      leb 3 (fixup_rounds_used run) ≡ true
      → advance p run task (ready d t ids) ≡ (
        ok tt,
        ready (written (failed_run (reviewed_run p run task feedback) budget_exhausted t) d) t ids,
      )
  unfolding advance get_response update_run output_entry
  advance-budget_exhausted spent = rw (reviewer, known, answer, asks, spent) refl
