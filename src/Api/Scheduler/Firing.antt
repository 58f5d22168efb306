-- ===== src/Api/Scheduler/Firing.antt =====
-- What becomes of a schedule that is due.
use open_mamba.Base.{ℕ, suc, ◌+◌, ◌≡◌, refl, Bool, true, some, List, [], ◌∷◌, ◌++◌, leb, update}
use open_mamba.Types.{Uuid, DateTime, new_envelope, source_as_str, status_as_str}
use open_mamba.Platform.{Platform, reply}
use open_mamba.Lake.Tables.{Schedule, TaskRecord, Db}
use open_mamba.Lake.Exec.{ok, ready, faulty}
use open_mamba.Lake.Store.{insert_envelope, envelope_row}
use open_mamba.Lake.Store.Rows.{on_tasks}
use open_mamba.Lake.Triggers.{is_schedule, on_schedules, advance_schedule}
use open_mamba.Bus.Dispatch.{submit}
use open_mamba.Api.Scheduler.{fire, next_after, max_zero}
use open_mamba.Api.Runner.Stored.{queued_row}

-- The schedule after it has fired.
abbrev pub fired : DateTime → DateTime → Schedule → Schedule
fired t next s = record s {
  next_run_at = next;
  last_fired_at = some t;
  fire_count = s.fire_count + 1;
}

-- The task that a schedule submits.
abbrev pub fired_row : Uuid → DateTime → Schedule → TaskRecord
fired_row id t s =
    queued_row id t "cron" s.project s.assigned_agent s.skill s.model s.payload
      (max_zero s.priority)

-- With no database failure, a schedule of priority 127 at most whose expression has a next time
-- submits one task and moves to that time, its firing counted.
pub fire-advance_schedule :
    (p : Platform) (s : Schedule) (d : Db) (t next : DateTime) (ids : ℕ → Uuid)
    → next_after p s.cron_expr t ≡ reply next
    → leb (max_zero s.priority) 127 ≡ true
    → fire p s (ready d t ids) ≡ (
      ok tt,
      ready
          (on_schedules
            (update (is_schedule s.id) (fired t next))
            (on_tasks (λ rows. rows ++ fired_row (ids 0) t s ∷ []) d))
          t
          (λ n. ids (suc n)),
    )
unfolding fire submit insert_envelope advance_schedule new_envelope envelope_row source_as_str
    status_as_str
fire-advance_schedule p s d t next ids known fits = rw (fits, known) refl

-- A schedule of priority 127 at most whose INSERT of the task fails stays due: the firing ends without
-- an error and leaves the database as it was.
pub fire-insert_envelope :
    (p : Platform) (s : Schedule) (d : Db) (t : DateTime) (ids : ℕ → Uuid) (faults : List Bool)
    → leb (max_zero s.priority) 127 ≡ true
    → fire p s (faulty (true ∷ faults) d t ids) ≡ (ok tt, faulty faults d t (λ n. ids (suc n)))
unfolding fire submit insert_envelope new_envelope
fire-insert_envelope p s d t ids faults fits = rw fits refl
