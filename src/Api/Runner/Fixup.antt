-- ===== src/Api/Runner/Fixup.antt =====
-- The budget of fixup rounds.
use open_mamba.Base.{
  ℕ, ◌+◌, ◌≤◌, ◌≡◌, Bool, true, List, [], ◌∷◌, ◌++◌, ◌==◌, if◌then◌else◌, select, length, All,
  All-update, arith,
}
use open_mamba.Types.Json.{Json}
use open_mamba.Lake.Tables.{WorkflowRun, Db}
use open_mamba.Lake.Keeps.{Keeps, Keeps-with_conn, Keeps-execute}
use open_mamba.Lake.Workflows.{update_run, write_run, is_run}
use open_mamba.Api.Runner.{fixup_rounds_used, push_output, max_fixup_rounds}
use open_mamba.Api.Runner.Spec.{
  RunStep, moves, finishes, rewinds, fails, aborts, asks_changes, is_live,
}

-- A run that goes on has had three rounds at most; one that has ended has asked for changes four
-- times at most.
abbrev pub cap : WorkflowRun → ℕ
cap r = if r.status == "running" then max_fixup_rounds else max_fixup_rounds + 1

abbrev pub InBudget : WorkflowRun → Type 0
InBudget r = fixup_rounds_used r ≤ cap r

abbrev pub AllInBudget : Db → Type 0
AllInBudget d = All InBudget d.workflow_runs

length-select-append {ℓ} :
    {A : Type ℓ} (p : A → Bool) (xs : List A) (y : A)
    → length (select p (xs ++ y ∷ [])) ≡ length (select p xs) + (if p y then 1 else 0)
length-select-append p [] y = ground arith
length-select-append p (x ∷ xs) y = ground (arith, length-select-append p xs y)

-- A round is counted for an output that asks for changes, and for no other.
pub fixup_rounds_used-push_output :
    (run : WorkflowRun) (o : Json)
    → fixup_rounds_used (push_output run o)
      ≡ fixup_rounds_used run + (if asks_changes o then 1 else 0)
unfolding fixup_rounds_used
fixup_rounds_used-push_output run o = length-select-append asks_changes run.outputs o

-- A step of a run in budget leads to a run in budget.
pub RunStep-InBudget :
    {r r' : WorkflowRun} → RunStep r r' → is_live r ≡ true → InBudget r → InBudget r'
unfolding fixup_rounds_used
RunStep-InBudget {r} (moves o id other e) live h =
    rw e (ground (arith, live, h, other, fixup_rounds_used-push_output r o))
RunStep-InBudget {r} (finishes o t other e) live h =
    rw e (ground (arith, live, h, other, fixup_rounds_used-push_output r o))
RunStep-InBudget {r} (rewinds o id left e) live h =
    rw e (ground (arith, live, h, left, fixup_rounds_used-push_output r o))
RunStep-InBudget {r} (fails o reason t e) live h =
    rw e (ground (arith, live, h, fixup_rounds_used-push_output r o))
RunStep-InBudget {r} (aborts reason t e) live h = rw e (ground (arith, live, h))

-- Writing a run that is in budget keeps all runs in budget.
pub update_run-AllInBudget : (run : WorkflowRun) → InBudget run → Keeps AllInBudget (update_run run)
unfolding update_run fixup_rounds_used
update_run-AllInBudget run h = Keeps-with_conn _ (
    Keeps-execute _ λ d all.
      All-update InBudget (is_run run.run_id) (write_run run) d.workflow_runs (λ old e i. h) all)
