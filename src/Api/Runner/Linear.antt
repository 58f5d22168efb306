-- ===== src/Api/Runner/Linear.antt =====
-- A run that goes on from one step to the next.
use open_mamba.Base.{
  ℕ, suc, ◌+◌, ◌≡◌, refl, String, true, false, Option, none, some, [], ◌∷◌, ◌++◌, ◌==◌, leb,
  get_elem?, update, unwrap_or, last-append,
}
use open_mamba.Types.{Uuid, DateTime, new_envelope, status_as_str, source_as_str}
use open_mamba.Types.Json.{Json, null}
use open_mamba.Platform.{Platform}
use open_mamba.Lake.Tables.{TaskRecord, TaskRow, Workflow, WorkflowStep, WorkflowRun, Db}
use open_mamba.Lake.Exec.{ok, err, ready}
use open_mamba.Lake.Store.{get_response, insert_envelope, envelope_row}
use open_mamba.Lake.Store.Rows.{find_task, on_tasks}
use open_mamba.Lake.Workflows.{find_workflow, get_workflow, update_run, on_runs}
use open_mamba.Bus.Dispatch.{submit}
use open_mamba.Api.Runner.{advance, output_entry, step_payload, build_step_envelope}
use open_mamba.Api.Runner.Stored.{step_row, step_output, step_request}

-- The run of that id takes the state of this one.
abbrev pub written : WorkflowRun → Db → Db
written run = on_runs (
    update (λ old. old.run_id == run.run_id)
      λ old. record old {
        status = run.status;
        current_step = run.current_step;
        outputs = run.outputs;
        completed_at = run.completed_at;
        error = run.error;
        current_task_id = run.current_task_id;
      })

-- The output of a step that is not the reviewer's.
abbrev pub plain_output : Platform → WorkflowRun → TaskRow → Option String → Json
plain_output p run task response =
    step_output p run.current_step task task.assigned_agent null (unwrap_or response "")

module _ (p : Platform) (run : WorkflowRun) (task : TaskRow) (d : Db) (t : DateTime)
    (ids : ℕ → Uuid) (r : TaskRecord) (w : Workflow)
    (known : find_task task.id d.task_envelopes ≡ some r)
    (plain : (task.assigned_agent == "code-reviewer") ≡ false)
    (flow : find_workflow run.workflow_id d.workflows ≡ some w) where
  -- With no database failure, when the task of a step that is not the reviewer's is done and the
  -- workflow has a next step of priority 127 at most, one task is submitted for that step, with the
  -- step's agent, skill, model and payload and with the output of the finished task, and the run has
  -- that output last and points to that step and that task.
  pub advance-next :
      (step : WorkflowStep)
      → get_elem? w.steps (run.current_step + 1) ≡ some step
      → leb step.priority 127 ≡ true
      → let out = plain_output p run task r.response in
        let row = step_row (ids 0) t step (p.json_to_string (step_request step out run)) in
        advance p run task (ready d t ids) ≡ (
          ok tt,
          ready
              (written
                (record run {
                  outputs = run.outputs ++ out ∷ [];
                  current_step = run.current_step + 1;
                  current_task_id = some (ids 0);
                })
                (on_tasks (λ rows. rows ++ row ∷ []) d))
              t
              (λ n. ids (suc n)),
        )
  unfolding advance get_response get_workflow build_step_envelope submit insert_envelope update_run
      envelope_row new_envelope output_entry step_payload status_as_str source_as_str
  advance-next step more fits =
      rw
        (
          plain,
          known,
          flow,
          more,
          fits,
          last-append run.outputs (plain_output p run task r.response),
        )
        refl

  -- With no next step the run is done, and no task is submitted.
  pub advance-done :
      get_elem? w.steps (run.current_step + 1) ≡ none
      → advance p run task (ready d t ids) ≡ (
        ok tt,
        ready
            (written
              (record run {
                outputs = run.outputs ++ plain_output p run task r.response ∷ [];
                status = "done";
                completed_at = some t;
                current_task_id = none;
                current_step = run.current_step + 1;
              })
              d)
            t
            ids,
      )
  unfolding advance get_response get_workflow update_run output_entry
  advance-done over = rw (plain, known, flow, over) refl

  -- With a next step of a priority above 127 no task is submitted and the database stays as it was,
  -- so that the run waits for the finished task still, and the next tick fails in the same way.
  advance-unstorable :
      (step : WorkflowStep)
      → get_elem? w.steps (run.current_step + 1) ≡ some step
      → leb step.priority 127 ≡ false
      → advance p run task (ready d t ids) ≡ (err "Conversion Error", ready d t (λ n. ids (suc n)))
  unfolding advance get_response get_workflow build_step_envelope submit insert_envelope
  advance-unstorable step more unfit = rw (plain, known, flow, more, unfit) refl
