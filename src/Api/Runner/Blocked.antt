-- ===== src/Api/Runner/Blocked.antt =====
-- The excerpt of a review that blocks a run.
use open_mamba.Base.{ℕ, ◌≡◌, refl, String, true, none, some, List, ◌∷◌, ◌==◌}
use open_mamba.Types.{Uuid, DateTime}
use open_mamba.Platform.{Platform, ascii_upper, MapsAscii}
use open_mamba.Bus.Errors.Signals.{StandsIn}
use open_mamba.Base.{codes}
use open_mamba.Lake.Tables.{TaskRecord, WorkflowRun, Db}
use open_mamba.Lake.Exec.{panic, ready}
use open_mamba.Lake.Store.{get_task, get_response, map_task_row}
use open_mamba.Lake.Store.Rows.{find_task}
use open_mamba.Api.Runner.{advance, tick_run, tick_runs, excerpt}
use open_mamba.Api.Runner.Verdict.{parse_reviewer_verdict-blocked}

-- With no database failure, a running run whose reviewer's task is done, with a response that reads
-- as blocked and has byte 200 inside a character, panics the advancer, so that the runs after it in
-- the tick are not looked at, and the database stays as it was.
pub tick_runs-excerpt :
    (p : Platform) (run : WorkflowRun) (rest : List WorkflowRun) (d : Db) (t : DateTime)
    (ids : ℕ → Uuid) (id : Uuid) (r : TaskRecord) (response : String)
    → MapsAscii p.to_uppercase ascii_upper
    → (run.status == "running") ≡ true
    → run.current_task_id ≡ some id
    → find_task id d.task_envelopes ≡ some r
    → r.id ≡ id
    → (r.status == "done") ≡ true
    → (r.assigned_agent == "code-reviewer") ≡ true
    → r.response ≡ some response
    → StandsIn ascii_upper (codes "BLOCKED") response
    → excerpt response ≡ none
    → tick_runs p (run ∷ rest) (ready d t ids) ≡ (panic, ready d t ids)
unfolding tick_runs tick_run advance get_task get_response map_task_row
tick_runs-excerpt p run rest d t ids id r response maps live waits known same finished reviewer
      answer stands cut =
    rw
      (
        live,
        waits,
        known,
        finished,
        same,
        known,
        reviewer,
        answer,
        parse_reviewer_verdict-blocked p response maps stands,
        cut,
      )
      refl
