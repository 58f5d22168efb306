-- ===== src/Api/Runner/Spec.antt =====
-- What may become of a workflow run: the advancer's writes, without the queue and the database.
use open_mamba.Base.{◌+◌, ◌<◌, ◌≡◌, String, Bool, false, some, none, ◌==◌, ap, ◌∙◌, sym}
use open_mamba.Types.{Uuid, DateTime}
use open_mamba.Types.Json.{Json, get}
use open_mamba.Lake.Tables.{WorkflowRun}
use open_mamba.Lake.Workflows.{write_run}
use open_mamba.Api.Runner.{push_output, failed_run, fixup_rounds_used, max_fixup_rounds, is_str}

-- An output whose verdict asks for changes.
abbrev pub asks_changes : Json → Bool
asks_changes o = is_str "changes_requested" (get o "verdict")

-- From a run that goes on: to its next step, to its end after the last step, back to its first step
-- for one of three rounds of changes, or to failure, with an output or without one.
pub data RunStep (r r' : WorkflowRun) : Type 0 where
  moves :
      (o : Json) (id : Uuid)
      → asks_changes o ≡ false
      → r'
        ≡ record (push_output r o) { current_step = r.current_step + 1; current_task_id = some id }
      → RunStep r r'
  finishes :
      (o : Json) (t : DateTime)
      → asks_changes o ≡ false
      → r' ≡ record (push_output r o) {
        status = "done";
        completed_at = some t;
        current_task_id = none;
        current_step = r.current_step + 1;
      }
      → RunStep r r'
  rewinds :
      (o : Json) (id : Uuid)
      → fixup_rounds_used r < max_fixup_rounds
      → r' ≡ record (push_output r o) { current_step = 0; current_task_id = some id }
      → RunStep r r'
  fails :
      (o : Json) (reason : String) (t : DateTime)
      → r' ≡ failed_run (push_output r o) reason t
      → RunStep r r'
  aborts : (reason : String) (t : DateTime) → r' ≡ failed_run r reason t → RunStep r r'

abbrev pub is_live : WorkflowRun → Bool
is_live r = r.status == "running"

module _ (x : WorkflowRun) {r r' : WorkflowRun} where
  -- A step keeps the columns that `update_run` does not write.
  pub write_run-RunStep : RunStep r r' → write_run x r' ≡ write_run x r
  write_run-RunStep (moves o id other e) = ap (write_run x) e
  write_run-RunStep (finishes o t other e) = ap (write_run x) e
  write_run-RunStep (rewinds o id left e) = ap (write_run x) e
  write_run-RunStep (fails o reason t e) = ap (write_run x) e
  write_run-RunStep (aborts reason t e) = ap (write_run x) e

-- Such a write leaves the run of the step.
pub write_run_self : {r r' : WorkflowRun} → RunStep r r' → write_run r' r ≡ r'
write_run_self {r} (moves o id other e) = ap (λ y. write_run y r) e ∙ sym e
write_run_self {r} (finishes o t other e) = ap (λ y. write_run y r) e ∙ sym e
write_run_self {r} (rewinds o id left e) = ap (λ y. write_run y r) e ∙ sym e
write_run_self {r} (fails o reason t e) = ap (λ y. write_run y r) e ∙ sym e
write_run_self {r} (aborts reason t e) = ap (λ y. write_run y r) e ∙ sym e

pub run_id-RunStep : {r r' : WorkflowRun} → RunStep r r' → r'.run_id ≡ r.run_id
run_id-RunStep {r} s = ap (λ (y : WorkflowRun). y.run_id) (write_run-RunStep r s)
