-- ===== src/Api/Worker/Stalled.antt =====
-- The worker after its reaper has met an overdue task.
use open_mamba.Base.{ℕ, ◌-◌, ◌≡◌, refl, true, List, ◌∷◌, select, leb, Bool-cases, inl, inr}
use open_mamba.Types.{Uuid, DateTime, seconds}
use open_mamba.Platform.{Platform}
use open_mamba.Lake.Tables.{TaskRecord, Db}
use open_mamba.Lake.Exec.{ready}
use open_mamba.Lake.Store.{list_pending}
use open_mamba.Lake.Store.Reset.{reap_stuck_tasks, overruns}
use open_mamba.Lake.Store.Retry.{reap_stuck_tasks-deadlock}
use open_mamba.Api.Worker.{Worker, poll, worker_concurrency}

-- While the connection is held, a poll changes nothing and takes up no task.
pub poll-locked : (p : Platform) (k : Worker) → k.world.locked ≡ true → poll p k ≡ k
unfolding poll list_pending
poll-locked p k held = elim (Bool-cases (leb worker_concurrency k.in_flight)) [
  | inl full ↦ rw full refl
  | inr room ↦ rw (room, held) refl
]

-- One task that has run longer than the reaper allows is enough to stop the worker: with no database
-- failure, in the world that the reaper leaves behind, a poll changes nothing and takes up no task.
pub poll-reap_stuck_tasks :
    (p : Platform) (timeout_secs : ℕ) (d : Db) (t : DateTime) (ids : ℕ → Uuid) (r : TaskRecord)
    (rest : List TaskRecord) (k : Worker)
    → select (overruns (t - seconds timeout_secs)) d.task_envelopes ≡ r ∷ rest
    → let w = (reap_stuck_tasks timeout_secs (ready d t ids)).1 in
      poll p (record k { world = w }) ≡ record k { world = w }
poll-reap_stuck_tasks p timeout_secs d t ids r rest k late =
    poll-locked p _ (reap_stuck_tasks-deadlock timeout_secs d t ids r rest late).1
