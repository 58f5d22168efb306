-- ===== src/Api/Runner/Window.antt =====
-- The hundred runs that a tick looks at.
use open_mamba.Base.{
  ℕ, ◌≡◌, refl, ap, Bool, false, none, List, [], ◌∷◌, ◌++◌, ◌==◌, any, take, select, Bool-cases,
  inl, inr, arith,
}
use open_mamba.Types.{Uuid, DateTime}
use open_mamba.Platform.{Platform}
use open_mamba.Lake.Tables.{WorkflowRun, Db}
use open_mamba.Lake.Exec.{World, ok, ready}
use open_mamba.Lake.Workflows.{list_runs, newest_first, of_workflow}
use open_mamba.Api.Runner.{tick_run, tick_runs, tick}

abbrev pub is_running : WorkflowRun → Bool
is_running r = r.status == "running"

tick_runs-idle :
    (p : Platform) (runs : List WorkflowRun) (w : World)
    → any is_running runs ≡ false
    → tick_runs p runs w ≡ (ok tt, w)
unfolding tick_runs tick_run
tick_runs-idle p [] w idle = refl
tick_runs-idle p (r ∷ rest) w idle = elim (Bool-cases (is_running r)) [
  | inl live ↦ ground arith
  | inr over ↦ rw over (tick_runs-idle p rest w (rw over at idle))
]

select-of_workflow : (runs : List WorkflowRun) → select (of_workflow none) runs ≡ runs
select-of_workflow [] = refl
select-of_workflow (r ∷ rest) = ap (λ t. r ∷ t) (select-of_workflow rest)

-- With no database failure, where none of the hundred runs that started last is running, a tick does
-- nothing, also where an older run is running and its task is done.
pub tick-newest_first :
    (p : Platform) (d : Db) (t : DateTime) (ids : ℕ → Uuid)
    → any is_running (take 100 (newest_first d.workflow_runs)) ≡ false
    → tick p (ready d t ids) ≡ (ok tt, ready d t ids)
unfolding tick list_runs
tick-newest_first p d t ids idle =
    rw (select-of_workflow d.workflow_runs)
      (tick_runs-idle p (take 100 (newest_first d.workflow_runs)) (ready d t ids) idle)

tick_runs-one :
    (p : Platform) (before after : List WorkflowRun) (run : WorkflowRun) (w w' : World)
    → any is_running before ≡ false
    → any is_running after ≡ false
    → tick_run p run w ≡ (ok tt, w')
    → tick_runs p (before ++ run ∷ after) w ≡ (ok tt, w')
unfolding tick_runs tick_run
tick_runs-one p [] after run w w' idle idle' h = rw h (tick_runs-idle p after w' idle')
tick_runs-one p (r ∷ before) after run w w' idle idle' h = elim (Bool-cases (is_running r)) [
  | inl live ↦ ground arith
  | inr over ↦ rw over (tick_runs-one p before after run w w' (rw over at idle) idle' h)
]

-- A tick that finds one running run among the hundred that started last is the tick of that run.
pub tick-one :
    (p : Platform) (before after : List WorkflowRun) (run : WorkflowRun) (d : Db) (t : DateTime)
    (ids : ℕ → Uuid) (w : World)
    → take 100 (newest_first d.workflow_runs) ≡ before ++ run ∷ after
    → any is_running before ≡ false
    → any is_running after ≡ false
    → tick_run p run (ready d t ids) ≡ (ok tt, w)
    → tick p (ready d t ids) ≡ (ok tt, w)
unfolding tick list_runs
tick-one p before after run d t ids w newest idle idle' h =
    rw (select-of_workflow d.workflow_runs, newest)
      (tick_runs-one p before after run (ready d t ids) w idle idle' h)
