-- ===== src/Tests/Flow.antt =====
-- Ingestion, workflow runs and webhooks.
use Prim.Native.Char.{char}
use open_mamba.Base.{ℕ, zero, suc, ◌≡◌, refl, String, true, some, none, [], ◌∷◌, ◌++◌, codes, arith}
use open_mamba.Types.{api}
use open_mamba.Platform.{◌⧺◌}
use open_mamba.Lake.Tables.{TaskRecord, Db, no_rows}
use open_mamba.Lake.Exec.{ok, panic, ready, faulty}
use open_mamba.Lake.Store.{map_task_row}
use open_mamba.Lake.Store.Rows.{on_tasks}
use open_mamba.Api.Ingest.{IngestRequest}
use open_mamba.Api.Runner.{advance, tick, tick_runs, fixup_rounds_used}
use open_mamba.Api.Runner.Stored.{step_row, step_request}
use open_mamba.Api.Runner.Fixup.{AllInBudget}
use open_mamba.Api.Runner.Tick.{tick-AllInBudget}
use open_mamba.Api.Runner.Linear.{plain_output, written, advance-next}
use open_mamba.Api.Runner.Blocked.{tick_runs-excerpt}
use open_mamba.Tests.Setting.{platform, row, workflow, step, run, uuids, to_uppercase-MapsAscii}

abbrev delivered : TaskRecord
delivered = row 1 "coder" "done" (some "patch")

abbrev flow : TaskRecord → ℕ → Db
flow r at = record no_rows {
  task_envelopes = r ∷ [];
  workflows = workflow ∷ [];
  workflow_runs = run at [] ∷ [];
}

tick-AllInBudget_example :
    AllInBudget
      (tick platform (
        faulty
          (true ∷ [])
          (flow (row 1 "code-reviewer" "done" (some "CHANGES REQUESTED")) 1)
          50
          uuids)).1.db
unfolding fixup_rounds_used
tick-AllInBudget_example =
    tick-AllInBudget platform
      (faulty (true ∷ []) (flow (row 1 "code-reviewer" "done" (some "CHANGES REQUESTED")) 1) 50
        uuids)
      (omega arith, tt)

advance-next_example :
    let out = plain_output platform (run 0 []) (map_task_row delivered) (some "patch") in
    let e =
      step_row 100 50
        (step "review" "code-reviewer")
        (platform.json_to_string (step_request (step "review" "code-reviewer") out (run 0 []))) in
    advance platform (run 0 []) (map_task_row delivered) (ready (flow delivered 0) 50 uuids) ≡ (
      ok tt,
      ready
          (written
            (record (run 0 []) { outputs = out ∷ []; current_step = 1; current_task_id = some 100 })
            (on_tasks (λ rows. rows ++ e ∷ []) (flow delivered 0)))
          50
          (λ n. uuids (suc n)),
    )
unfolding map_task_row
advance-next_example =
    advance-next platform (run 0 []) (map_task_row delivered) (flow delivered 0) 50 uuids delivered
      workflow refl refl refl (step "review" "code-reviewer") refl refl

-- A text of `n` letters x and an é.
abbrev padded : ℕ → String
padded zero = "é"
padded (suc n) = String.◌∷◌ (char 120 tt) (padded n)

abbrev long_review : String
long_review = "Blocked" ⧺ padded 192

abbrev refused_task : TaskRecord
refused_task = row 1 "code-reviewer" "done" (some long_review)

tick_runs-excerpt_example :
    tick_runs platform (run 1 [] ∷ run 1 [] ∷ []) (ready (flow refused_task 1) 50 uuids)
    ≡ (panic, ready (flow refused_task 1) 50 uuids)
tick_runs-excerpt_example =
    tick_runs-excerpt platform (run 1 []) (run 1 [] ∷ []) (flow refused_task 1) 50 uuids 1
      refused_task long_review to_uppercase-MapsAscii refl refl refl refl refl refl refl
      ([], codes "Blocked", codes (padded 192), refl, ground arith, refl) refl

abbrev request : IngestRequest
request = record {
  project = "site";
  assigned_agent = "coder";
  skill = none;
  model = none;
  payload = "do it";
  priority = none;
  source = api;
}
