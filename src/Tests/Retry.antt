-- ===== src/Tests/Retry.antt =====
-- A retry of a task whose dispatch is running.
use open_mamba.Base.{◌≡◌, refl, none, some, [], ◌∷◌}
use open_mamba.Lake.Tables.{TaskRecord, Db}
use open_mamba.Lake.Exec.{World, ok, ready}
use open_mamba.Lake.Store.{get_response, map_task_row}
use open_mamba.Api.Answer.{answer}
use open_mamba.Api.Tasks.{retry_task}
use open_mamba.Api.Tasks.Retry.{again, retry_task-poll}
use open_mamba.Api.Worker.{poll, envelope_from_row}
use open_mamba.Tests.Setting.{platform, row, tasks, envelope, uuids}

abbrev working : TaskRecord
working = row 1 "coder" "running" (some "half")

abbrev queue : Db
queue = tasks (working ∷ [])

abbrev retried : World
retried = (retry_task 1 (ready queue 50 uuids)).1

retry_task-poll_example :
    ((retry_task 1 (ready queue 50 uuids)).0 ≡ ok (answer 202 1))
    × ((get_response 1 retried).0 ≡ ok none)
    × ((poll platform (record {
      world = retried;
      in_flight = 1;
      spawned = envelope "claude-opus-4-7" ∷ [];
    })).spawned
        ≡ envelope "claude-opus-4-7"
          ∷ envelope_from_row platform 50 (map_task_row (again working))
          ∷ [])
retry_task-poll_example =
    retry_task-poll platform 1 working queue 50 uuids refl (envelope "claude-opus-4-7") refl
