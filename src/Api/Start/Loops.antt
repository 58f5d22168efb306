-- ===== src/Api/Start/Loops.antt =====
-- crates/mamba-api/src/worker.rs, scheduler.rs and workflow_runner.rs, `spawn`: what one round of each loop does
-- after its sleep. An error is logged and the loop goes on; the poll of the worker is `Api.Worker.poll`.
use open_mamba.Base.{ℕ, ◌*◌}
use open_mamba.Platform.{Platform}
use open_mamba.Lake.Exec.{Exec, pure, attempt, ◌>>◌}
use open_mamba.Lake.Store.Reset.{reap_stuck_tasks}
use open_mamba.Api.Scheduler as scheduler
use open_mamba.Api.Runner as workflow_runner

abbrev pub stuck_task_timeout_secs : ℕ
stuck_task_timeout_secs = 15 * 60

unfoldable pub reap_round : Exec (Unit {0})
unfolding reap_stuck_tasks
reap_round = attempt (reap_stuck_tasks stuck_task_timeout_secs) >> pure tt

unfoldable pub schedule_round : Platform → Exec (Unit {0})
unfolding scheduler.tick
schedule_round p = attempt (scheduler.tick p) >> pure tt

unfoldable pub advance_round : Platform → Exec (Unit {0})
unfolding workflow_runner.tick
advance_round p = attempt (workflow_runner.tick p) >> pure tt
