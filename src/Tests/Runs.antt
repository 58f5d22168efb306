-- ===== src/Tests/Runs.antt =====
-- Runs that go round, end, stay ended, and start; a turn that is answered.
use open_mamba.Base.{ℕ, zero, suc, ◌≡◌, refl, some, none, List, [], ◌∷◌, ◌++◌, update, pos}
use open_mamba.Types.Json.{Json, str, obj, field, end}
use open_mamba.Platform.{reply, response}
use open_mamba.Lake.Tables.{TaskRecord, WorkflowRun, WorkflowStep, Workflow, Db, no_rows}
use open_mamba.Lake.Exec.{ok, ready, faulty}
use open_mamba.Lake.Store.{map_task_row}
use open_mamba.Lake.Store.Rows.{has_id, on_tasks}
use open_mamba.Lake.Records.{on_billing}
use open_mamba.Bus.Openfang.{OpenfangClient, DispatchResult, resolve_agent_id, dispatch}
use open_mamba.Bus.Dispatch.{Bus, dispatch_openfang}
use open_mamba.Bus.Dispatch.Settling.{answered_row, bill_row}
use open_mamba.Bus.Dispatch.Turn.{dispatch_openfang-process}
use open_mamba.Api.Flows.Launch.{launched, launched_run}
use open_mamba.Api.Runner.{advance, tick, parse_reviewer_verdict, fixup_rounds_used}
use open_mamba.Api.Runner.Stored.{step_row, fixup_request}
use open_mamba.Api.Runner.Linear.{written}
use open_mamba.Api.Runner.Rounds.{reviewed_run, review_output, advance-fixup_payload}
use open_mamba.Api.Runner.Machine.{HasNext, tick-HasNext}
use open_mamba.Api.Runner.Window.{tick-newest_first}
use open_mamba.Tests.Setting.{
  platform, bus, openfang, row, envelope, tasks, workflow, step, run, uuids,
}

abbrev reviewed : TaskRecord
reviewed = row 1 "code-reviewer" "done" (some "CHANGES REQUESTED: tests")

abbrev flow : TaskRecord → List WorkflowRun → Db
flow r runs = record no_rows {
  task_envelopes = r ∷ [];
  workflows = workflow ∷ [];
  workflow_runs = runs;
}

abbrev ended : WorkflowRun
ended = record (run 1 []) { status = "done"; run_id = "old" }

tick-HasNext_example :
    HasNext
      (run 1 [])
      (tick platform (faulty [] (flow reviewed (ended ∷ run 1 [] ∷ [])) 50 uuids)).1.db
tick-HasNext_example =
    tick-HasNext platform (faulty [] (flow reviewed (ended ∷ run 1 [] ∷ [])) 50 uuids) (run 1 [])
      refl

advance-fixup_payload_example :
    let updated =
      reviewed_run platform (run 1 []) (map_task_row reviewed) "CHANGES REQUESTED: tests" in
    let request =
      fixup_request
        (step "deliver" "coder")
        1
        "CHANGES REQUESTED: tests"
        (review_output platform (run 1 []) (map_task_row reviewed) "CHANGES REQUESTED: tests")
        (run 1 []) in
    let e = step_row 100 50 (step "deliver" "coder") (platform.json_to_string request) in
    advance platform (run 1 []) (map_task_row reviewed) (ready (flow reviewed []) 50 uuids) ≡ (
      ok tt,
      ready
          (written
            (record updated { current_step = 0; current_task_id = some 100 })
            (on_tasks (λ rows. rows ++ e ∷ []) (flow reviewed [])))
          50
          (λ n. uuids (suc n)),
    )
unfolding map_task_row parse_reviewer_verdict fixup_rounds_used
advance-fixup_payload_example =
    advance-fixup_payload platform (run 1 []) (map_task_row reviewed) (flow reviewed []) 50 uuids
      reviewed "CHANGES REQUESTED: tests" refl refl refl refl workflow (step "deliver" "coder") refl
      refl refl refl

abbrev asked : Json
asked = obj (field "verdict" (str "changes_requested") end)

abbrev worn_out : WorkflowRun
worn_out = run 1 (asked ∷ asked ∷ asked ∷ [])

abbrev heavy : WorkflowStep
heavy = record (step "review" "code-reviewer") { priority = 128 }

abbrev heavy_flow : Workflow
heavy_flow = record workflow { steps = step "deliver" "coder" ∷ heavy ∷ [] }

abbrev delivered : TaskRecord
delivered = row 1 "coder" "done" (some "patch")

-- The database that a start leaves, and its run.
abbrev launched_flow : Db
launched_flow =
    launched platform "wf" none (flow delivered []) 50 (λ n. n) workflow (step "deliver" "coder")
      refl refl refl

abbrev first_run : WorkflowRun
first_run =
    launched_run platform "wf" none (flow delivered []) 50 (λ n. n) workflow
      (step "deliver" "coder") refl refl refl

-- A hundred runs that have ended, and an older one that waits for a task that is done.
abbrev crowd : ℕ → List WorkflowRun
crowd zero = record (run 0 []) { started_at = 1 } ∷ []
crowd (suc n) = ended ∷ crowd n

tick-newest_first_example :
    tick platform (ready (flow delivered (crowd 100)) 50 uuids)
    ≡ (ok tt, ready (flow delivered (crowd 100)) 50 uuids)
tick-newest_first_example = tick-newest_first platform (flow delivered (crowd 100)) 50 uuids refl

-- An agent that answers.
abbrev talker : OpenfangClient
talker = record openfang {
  send = λ agent message. response 200 message;
  parse =
      λ s. reply (record { response = s; input_tokens = 7; output_tokens = 9; cost_usd = none });
}

abbrev talking : Bus
talking = record bus { openfang = talker }

abbrev said : DispatchResult
said = record { response = "do it"; input_tokens = pos 7; output_tokens = pos 9; cost_usd = 0 }

abbrev due : TaskRecord
due = row 1 "coder" "pending" none

dispatch_openfang-process_example :
    let bill = bill_row talking (envelope "claude-opus-4-7") "do it" (pos 7) (pos 9) 0 100 50 in
    dispatch_openfang talking (envelope "claude-opus-4-7") (ready (tasks (due ∷ [])) 50 uuids) ≡ (
      ok tt,
      ready
          (on_billing
            (λ rows. rows ++ bill ∷ [])
            (on_tasks
              (update
                (has_id 1)
                (answered_row 50 said.response said.input_tokens said.output_tokens said.cost_usd))
              (tasks (due ∷ []))))
          50
          (λ n. uuids (suc n)),
    )
unfolding resolve_agent_id dispatch
dispatch_openfang-process_example =
    dispatch_openfang-process talking (envelope "claude-opus-4-7") "a1" "do it" said
      (tasks (due ∷ [])) 50 uuids refl refl refl refl
