-- ===== src/Api/Runner/Stored.antt =====
-- What crates/mamba-api/src/workflow_runner.rs leaves in the tables for a step of a workflow, written out
-- column by column and field by field, without the model's own constructors of envelopes, outputs and
-- payloads: the statements about runs are made in these words.
use open_mamba.Base.{ℕ, ◌+◌, pos, String, Option, none, some, []}
use open_mamba.Types.{Uuid, DateTime}
use open_mamba.Types.Json.{
  Json, number, str, obj, field, end, of_option_ℤ, of_option_f64, of_option_str,
}
use open_mamba.Platform.{Platform}
use open_mamba.Lake.Tables.{TaskRecord, TaskRow, WorkflowStep, WorkflowRun}

-- A task that waits in the queue and has never been dispatched.
abbrev pub queued_row :
    Uuid → DateTime → String → String → String → Option String → String → String → ℕ → TaskRecord
queued_row id t source project agent skill model payload priority = record {
  id = id;
  project = project;
  source = source;
  assigned_agent = agent;
  skill = skill;
  model = model;
  payload = payload;
  priority = pos priority;
  status = "pending";
  openfang_job_id = none;
  tokens_in = none;
  tokens_out = none;
  cost_usd = none;
  encrypted_payload = none;
  chain_tx = none;
  created_at = t;
  dispatched_at = none;
  completed_at = none;
  response = none;
  retry_count = some 0;
  not_before = none;
}

-- The task of a step, whose source is always the webhook.
abbrev pub step_row : Uuid → DateTime → WorkflowStep → String → TaskRecord
step_row id t s payload =
    queued_row id t "webhook" s.project s.assigned_agent s.skill s.model payload s.priority

-- A run at its first step, which waits for a task.
abbrev pub started_run : String → String → DateTime → Option String → Uuid → WorkflowRun
started_run run_id workflow_id t input task_id = record {
  run_id = run_id;
  workflow_id = workflow_id;
  status = "running";
  current_step = 0;
  outputs = [];
  initial_input = input;
  started_at = t;
  completed_at = none;
  error = none;
  current_task_id = some task_id;
}

-- The output of a finished step: its number, its task with the id as a text, its agent, its verdict and
-- its answer.
abbrev pub step_output : Platform → ℕ → TaskRow → String → Json → String → Json
step_output p step task agent verdict response = obj (
    field "step" (number (pos step)) (
      field "task_id" (str (p.uuid_to_string task.id)) (
        field "agent" (str agent) (
          field "verdict" verdict (
            field "response" (str response) (
              field "tokens_in" (of_option_ℤ task.tokens_in) (
                field "tokens_out" (of_option_ℤ task.tokens_out)
                  (field "cost_usd" (of_option_f64 task.cost_usd) end))))))))

-- What the agent of a step gets: the step's own payload, the output of the step before, and where it is.
abbrev pub step_request : WorkflowStep → Json → WorkflowRun → Json
step_request step previous run = obj (
    field "template" (str step.payload) (
      field "__previous" previous (
        field "__workflow"
          (obj (
            field "run_id" (str run.run_id) (
              field "workflow_id" (str run.workflow_id) (
                field "step_index" (number (pos (run.current_step + 1))) (
                  field "step_name" (str step.name)
                    (field "initial_input" (of_option_str run.initial_input) end))))))
          end)))

-- What the first agent gets again with the feedback of a review, which is also the output before.
abbrev pub fixup_request : WorkflowStep → ℕ → String → Json → WorkflowRun → Json
fixup_request step round feedback previous run = obj (
    field "template" (str step.payload) (
      field "fixup_round" (number (pos round)) (
        field "reviewer_feedback" (str feedback) (
          field "__previous" previous (
            field "__workflow"
              (obj (
                field "run_id" (str run.run_id) (
                  field "workflow_id" (str run.workflow_id) (
                    field "step_name" (str "fixup")
                      (field "initial_input" (of_option_str run.initial_input) end)))))
              end)))))
