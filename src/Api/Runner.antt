-- ===== src/Api/Runner.antt =====
-- crates/mamba-api/src/workflow_runner.rs: the advancer of workflow runs.
pub mod Verdict
pub mod Spec
pub mod Refines
pub mod Fixup
pub mod Blocked
pub mod Stored
pub mod Linear
pub mod Final
pub mod Machine
pub mod Rounds
pub mod Window
pub mod Tick
use open_mamba.Base.{
  ℕ, zero, suc, ◌+◌, min, len, pos, String, Bool, true, false, ◌||◌, Option, none, some, List, [],
  ◌∷◌, ◌++◌, ◌==◌, contains, leb, if◌then◌else◌, select, length, get_elem?, last, unwrap_or, ℤ,
}
use text.Mathlib.Text.{get?}
use open_mamba.Types.{Uuid, DateTime, TaskEnvelope, webhook, new_envelope}
use open_mamba.Types.Json.{
  Json, null, str, obj, field, end, get, as_str, of_ℕ, of_option_ℤ, of_option_f64, of_option_str,
}
use open_mamba.Platform.{Platform, ◌⧺◌}
use open_mamba.Lake.Tables.{TaskRow, Workflow, WorkflowStep, WorkflowRun}
use open_mamba.Lake.Exec.{Exec, pure, fail, crash, attempt, now, new_v4, ◌>>=◌, ◌>>◌}
use open_mamba.Lake.Store.{get_task, get_response}
use open_mamba.Lake.Workflows.{get_workflow, list_runs, update_run}
use open_mamba.Bus.Dispatch.{submit}

abbrev pub max_fixup_rounds : ℕ
max_fixup_rounds = 3

pub data ReviewVerdict : Type 0 where
  approved : ReviewVerdict
  changes_requested : String → ReviewVerdict
  blocked : String → ReviewVerdict
  unknown : ReviewVerdict

abbrev pub verdict_of : String → String → ReviewVerdict
verdict_of response upper =
    if contains upper "BLOCKED" || contains upper "PERMANENTLY_BLOCKED"
    then blocked response
    else if contains upper "CHANGES_REQUESTED" || contains upper "CHANGES REQUESTED"
    then changes_requested response
    else if contains upper "APPROVED" || contains upper "LGTM" || contains upper "CONFIRMED"
    then approved
    else unknown

unfoldable pub parse_reviewer_verdict : Platform → String → ReviewVerdict
unfolding contains
parse_reviewer_verdict p response = verdict_of response (p.to_uppercase response)

abbrev pub is_str : String → Option Json → Bool
is_str s none = false
is_str s (some v) = elim (as_str v) [ none ↦ false | some t ↦ t == s ]

unfoldable pub fixup_rounds_used : WorkflowRun → ℕ
fixup_rounds_used run =
    length (select (λ o. is_str "changes_requested" (get o "verdict")) run.outputs)

-- One entry of `outputs`.
unfoldable pub output_entry : Platform → WorkflowRun → TaskRow → String → Json → String → Json
output_entry p run task agent verdict response = obj (
    field "step" (of_ℕ run.current_step) (
      field "task_id" (str (p.uuid_to_string task.id)) (
        field "agent" (str agent) (
          field "verdict" verdict (
            field "response" (str response) (
              field "tokens_in" (of_option_ℤ task.tokens_in) (
                field "tokens_out" (of_option_ℤ task.tokens_out)
                  (field "cost_usd" (of_option_f64 task.cost_usd) end))))))))

abbrev pub push_output : WorkflowRun → Json → WorkflowRun
push_output run o = record run { outputs = run.outputs ++ o ∷ [] }

abbrev pub previous_of : WorkflowRun → Json
previous_of run = unwrap_or (last run.outputs) null

-- A run that ends in failure, with its reason.
abbrev pub failed_run : WorkflowRun → String → DateTime → WorkflowRun
failed_run run reason t = record run {
  status = "failed";
  error = some reason;
  completed_at = some t;
  current_task_id = none;
}

unfoldable pub step_payload : WorkflowStep → WorkflowRun → Json
step_payload step run = obj (
    field "template" (str step.payload) (
      field "__previous" (previous_of run) (
        field "__workflow"
          (obj (
            field "run_id" (str run.run_id) (
              field "workflow_id" (str run.workflow_id) (
                field "step_index" (of_ℕ (run.current_step + 1)) (
                  field "step_name" (str step.name)
                    (field "initial_input" (of_option_str run.initial_input) end))))))
          end)))

abbrev pub step_envelope : Uuid → DateTime → WorkflowStep → String → TaskEnvelope
step_envelope id t step payload =
    new_envelope id t step.project webhook step.assigned_agent step.skill step.model payload
      step.priority

unfoldable pub build_step_envelope : Platform → WorkflowStep → WorkflowRun → Exec TaskEnvelope
unfolding new_envelope step_payload
build_step_envelope p step run = do
  id ← new_v4
  t ← now
  pure (step_envelope id t step (p.json_to_string (step_payload step run)))

unfoldable pub fixup_payload : WorkflowStep → WorkflowRun → ℕ → String → Json
fixup_payload step run round feedback = obj (
    field "template" (str step.payload) (
      field "fixup_round" (of_ℕ round) (
        field "reviewer_feedback" (str feedback) (
          field "__previous" (previous_of run) (
            field "__workflow"
              (obj (
                field "run_id" (str run.run_id) (
                  field "workflow_id" (str run.workflow_id) (
                    field "step_name" (str "fixup")
                      (field "initial_input" (of_option_str run.initial_input) end)))))
              end)))))

-- `&reason[..reason.len().min(200)]`: a panic where byte 200 is inside a character.
abbrev pub excerpt : String → Option String
excerpt reason = get? reason 0 (min (len reason) 200)

abbrev pub fail_blocked : WorkflowRun → Option String → Exec Unit
fail_blocked run none = crash
fail_blocked run (some text) = do
  t ← now
  update_run (failed_run run ("reviewer blocked: " ⧺ text) t)

abbrev pub on_blocked : Platform → WorkflowRun → TaskRow → String → Exec Unit
on_blocked p run task response =
    fail_blocked
      (push_output run (output_entry p run task "code-reviewer" (str "blocked") response))
      (excerpt response)

-- The coder step goes back to the queue with the feedback, and the run rewinds to it.
abbrev pub dispatch_fixup : Platform → WorkflowRun → ℕ → String → Option WorkflowStep → Exec Unit
dispatch_fixup p updated rounds feedback none = crash
dispatch_fixup p updated rounds feedback (some coder) = do
  id ← new_v4
  t ← now
  submit (
      step_envelope id t coder
        (p.json_to_string (fixup_payload coder updated (rounds + 1) feedback)))
  update_run (record updated { current_step = 0; current_task_id = some id })

abbrev pub start_fixup : Platform → WorkflowRun → ℕ → String → Option Workflow → Exec Unit
start_fixup p updated rounds feedback none = fail "workflow definition missing"
start_fixup p updated rounds feedback (some w) =
    dispatch_fixup p updated rounds feedback (get_elem? w.steps 0)

abbrev pub budget_exhausted : String
budget_exhausted = "reviewer requested changes 3× — giving up"

abbrev pub on_changes_requested : Platform → WorkflowRun → TaskRow → String → Exec Unit
on_changes_requested p run task response = do
  let rounds = fixup_rounds_used run
  let updated =
      push_output run (output_entry p run task "code-reviewer" (str "changes_requested") response)
  if leb max_fixup_rounds rounds
      then (now >>= λ t. update_run (failed_run updated budget_exhausted t))
      else (get_workflow run.workflow_id >>= start_fixup p updated rounds response)

abbrev pub finish_run : WorkflowRun → ℕ → Exec Unit
finish_run updated next = do
  t ← now
  update_run (record updated {
    status = "done";
    completed_at = some t;
    current_task_id = none;
    current_step = next;
  })

abbrev pub next_step : Platform → WorkflowRun → ℕ → Option WorkflowStep → Exec Unit
next_step p updated next none = finish_run updated next
next_step p updated next (some step) = do
  e ← build_step_envelope p step updated
  submit e
  update_run (record updated { current_step = next; current_task_id = some e.id })

abbrev pub advance_in : Platform → WorkflowRun → Option Workflow → Exec Unit
advance_in p updated none =
    now >>= λ t. update_run (failed_run updated "workflow definition deleted mid-run" t)
advance_in p updated (some w) =
    next_step p updated (updated.current_step + 1) (get_elem? w.steps (updated.current_step + 1))

abbrev pub linear_advance : Platform → WorkflowRun → TaskRow → Json → String → Exec Unit
linear_advance p run task verdict response = do
  let updated = push_output run (output_entry p run task task.assigned_agent verdict response)
  w ← get_workflow run.workflow_id
  advance_in p updated w

abbrev pub on_verdict : Platform → WorkflowRun → TaskRow → String → ReviewVerdict → Exec Unit
on_verdict p run task response (blocked reason) = on_blocked p run task reason
on_verdict p run task response (changes_requested feedback) =
    on_changes_requested p run task feedback
on_verdict p run task response approved = linear_advance p run task (str "approved") response
on_verdict p run task response unknown = linear_advance p run task (str "approved") response

unfoldable pub advance : Platform → WorkflowRun → TaskRow → Exec Unit
unfolding parse_reviewer_verdict fixup_rounds_used build_step_envelope
advance p run task = do
  found ← get_response task.id
  let response = unwrap_or found ""
  if task.assigned_agent == "code-reviewer"
      then on_verdict p run task response (parse_reviewer_verdict p response)
      else linear_advance p run task null response

-- A run whose task failed for good is aborted; an error of the update is ignored.
abbrev pub abort_run : Platform → WorkflowRun → Exec Unit
abort_run p run = do
  t ← now
  attempt (
      update_run
        (failed_run run ("step " ⧺ p.show_ℕ run.current_step ⧺ " task failed permanently") t))
  pure tt

abbrev pub settle_task : Platform → WorkflowRun → Option (Option TaskRow) → Exec Unit
settle_task p run none = pure tt
settle_task p run (some none) = pure tt
settle_task p run (some (some task)) =
    if task.status == "done"
    then (attempt (advance p run task) >> pure tt)
    else if task.status == "failed"
    then abort_run p run
    else pure tt

abbrev pub check_task : Platform → WorkflowRun → Option Uuid → Exec Unit
check_task p run none = pure tt
check_task p run (some id) = attempt (get_task id) >>= settle_task p run

unfoldable pub tick_run : Platform → WorkflowRun → Exec Unit
unfolding advance
tick_run p run = if run.status == "running" then check_task p run run.current_task_id else pure tt

unfoldable pub tick_runs : Platform → List WorkflowRun → Exec Unit
unfolding tick_run
tick_runs p [] = pure tt
tick_runs p (r ∷ rest) = tick_run p r >> tick_runs p rest

abbrev pub runs_per_tick : ℤ
runs_per_tick = pos 100

unfoldable pub tick : Platform → Exec Unit
unfolding tick_runs
tick p = list_runs none runs_per_tick >>= tick_runs p
