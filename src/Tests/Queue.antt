-- ===== src/Tests/Queue.antt =====
-- The queue, the worker and the scheduler.
use open_mamba.Base.{
  ℕ, String, ◌≡◌, refl, ◌≢◌, ◌+◌, true, false, some, none, List, [], ◌∷◌, ◌++◌, All, Perm, map,
  select, arith,
}
use open_mamba.Types.{Uuid, DateTime, seconds}
use open_mamba.Lake.Tables.{TaskRecord, Db, no_rows}
use open_mamba.Lake.Exec.{ok, err, ready, faulty, database_error, ◌>>◌}
use open_mamba.Lake.Store.{list_pending, pending_ids, is_due, get_task, map_task_row}
use open_mamba.Lake.Store.Rows.{on_tasks}
use open_mamba.Lake.Store.Reset.{record_dispatch_failure, reset_to_pending, reap_stuck_tasks}
use open_mamba.Lake.Store.Retry.{after_failure, record_dispatch_failure_lem, reset_to_pending_loss}
use open_mamba.Lake.Store.Queue.{
  Before, list_pending-IsOrdered, list_pending-record_dispatch_failure,
}
use open_mamba.Lake.Triggers.{due_schedules}
use open_mamba.Bus.Dispatch.{submit}
use open_mamba.Base.{IsOrdered}
use open_mamba.Api.Worker.{envelope_from_row, poll, started, here, next, polls}
use open_mamba.Api.Worker.Slots.{InBounds, Reach-InBounds}
use open_mamba.Api.Worker.Twice.{poll_twice}
use open_mamba.Api.Worker.Handover.{get_task-submit, submitted_row, requeued}
use open_mamba.Api.Worker.Stalled.{poll-reap_stuck_tasks}
use open_mamba.Api.Scheduler.{fire, next_after, schedule_envelope}
use open_mamba.Api.Scheduler
use open_mamba.Api.Scheduler.Once.{fired_tasks, due_of, tick-due_schedules}
use open_mamba.Tests.Setting.{platform, tasks, row, envelope, schedule, uuids}

abbrev late : TaskRecord
late = row 1 "coder" "running" none

abbrev due : TaskRecord
due = row 1 "coder" "pending" none

record_dispatch_failure_example :
    record_dispatch_failure 1 true 2 30 (ready (tasks (late ∷ [])) 50 uuids) ≡ (
      ok true,
      ready (on_tasks (after_failure 1 true (50 + seconds 30) late) (tasks (late ∷ []))) 50 uuids,
    )
record_dispatch_failure_example =
    record_dispatch_failure_lem 1 true 2 30 (tasks (late ∷ [])) 50 uuids late refl

list_pending-IsOrdered_example :
    (rows : List TaskRecord) × (list_pending (ready (tasks (late ∷ due ∷ [])) 50 uuids)
      ≡ (ok (map (λ r. r.id) rows), ready (tasks (late ∷ due ∷ [])) 50 uuids))
    × Perm rows (select (is_due 50) (late ∷ due ∷ []))
    × IsOrdered Before rows
list_pending-IsOrdered_example = list_pending-IsOrdered (tasks (late ∷ due ∷ [])) 50 uuids

list_pending-record_dispatch_failure_example :
    let w = (record_dispatch_failure 1 true 2 30 (ready (tasks (late ∷ [])) 50 uuids)).1 in
    (js : List Uuid) × ((list_pending (record w { clock = 60 })).0 ≡ ok js) × All (λ j. j ≢ 1) js
list_pending-record_dispatch_failure_example =
    list_pending-record_dispatch_failure 1 2 30 (tasks (late ∷ [])) 50 60 uuids late refl refl
      (omega arith)

reset_to_pending_loss_example :
    reset_to_pending (1 ∷ []) (faulty (false ∷ false ∷ true ∷ []) (tasks (late ∷ [])) 50 uuids)
    ≡ (err database_error, faulty [] (tasks []) 50 uuids)
reset_to_pending_loss_example = reset_to_pending_loss 1 (tasks (late ∷ [])) 50 uuids late [] refl

Reach-InBounds_example : InBounds (poll platform (started (ready (tasks (due ∷ [])) 50 uuids)))
Reach-InBounds_example =
    Reach-InBounds (next here (polls (started (ready (tasks (due ∷ [])) 50 uuids))))

poll_twice_example :
    (poll platform (poll platform (started (ready (tasks (due ∷ [])) 50 uuids)))).spawned
    ≡ envelope_from_row platform 50 (map_task_row due)
      ∷ envelope_from_row platform 50 (map_task_row due)
      ∷ []
unfolding pending_ids
poll_twice_example = poll_twice platform (tasks (due ∷ [])) 50 uuids 1 due refl refl refl

get_task-submit_example :
    ((submit (envelope "claude-opus-4-7") >> get_task 1) (ready (tasks []) 50 uuids) ≡ (
      ok (some (map_task_row (submitted_row (envelope "claude-opus-4-7")))),
      ready
          (on_tasks (λ rows. rows ++ submitted_row (envelope "claude-opus-4-7") ∷ []) (tasks []))
          50
          uuids,
    ))
    × (envelope_from_row platform 50 (map_task_row (submitted_row (envelope "claude-opus-4-7")))
        ≡ requeued platform 50 (envelope "claude-opus-4-7"))
get_task-submit_example =
    get_task-submit platform (envelope "claude-opus-4-7") (tasks []) 50 uuids refl refl

poll-reap_stuck_tasks_example :
    let w = (reap_stuck_tasks 900 (ready (tasks (late ∷ [])) 1_000_000_000 uuids)).1 in
    poll platform (started w) ≡ started w
poll-reap_stuck_tasks_example =
    poll-reap_stuck_tasks platform 900 (tasks (late ∷ [])) 1_000_000_000 uuids late []
      (started (ready no_rows 0 uuids)) refl

abbrev two_schedules : Db
two_schedules = record no_rows {
  schedules =
      record schedule { id = "later"; next_run_at = 90 }
      ∷ schedule
      ∷ record schedule { id = "off"; enabled = false }
      ∷ [];
}

abbrev in_a_minute : String → DateTime
in_a_minute expr = 100 + seconds 60

tick-due_schedules_example :
    (d' : Db) × (ids' : ℕ → Uuid) × (Scheduler.tick platform (ready two_schedules 100 uuids)
      ≡ (ok tt, ready d' 100 ids'))
    × (d'.task_envelopes
        ≡ [] ++ fired_tasks 100 uuids (due_of platform 100 in_a_minute two_schedules))
    × (due_schedules (ready d' 100 ids') ≡ (ok [], ready d' 100 ids'))
unfolding next_after
tick-due_schedules_example =
    tick-due_schedules platform 100 in_a_minute two_schedules uuids
      ((refl, ground arith, refl), ((refl, ground arith, refl), tt))
