-- ===== src/Api/Tasks/Retry.antt =====
-- What the worker makes of a task that POST /api/tasks/:id/retry puts back.
use open_mamba.Base.{
  ℕ, ◌≡◌, refl, ap, true, none, some, [], ◌∷◌, ◌++◌, eq_of_eqb, select, reject, select-concat,
  first-select-append, any-reject,
}
use open_mamba.Types.{Uuid, DateTime, TaskEnvelope}
use open_mamba.Platform.{Platform}
use open_mamba.Lake.Tables.{TaskRecord, Db}
use open_mamba.Lake.Exec.{ok, ready}
use open_mamba.Lake.Store.{get_response, is_due, pending_ids, map_task_row}
use open_mamba.Lake.Store.Rows.{find_task, has_id, on_tasks, core_row}
use open_mamba.Lake.Store.Reset.{reset_to_pending}
use open_mamba.Lake.Store.Retry.{waiting_again}
use open_mamba.Lake.Store.Frame.{find_task-IsOwn}
use open_mamba.Api.Answer.{answer}
use open_mamba.Api.Tasks.{retry_task}
use open_mamba.Api.Worker.{Worker, poll, envelope_from_row}
use open_mamba.Api.Worker.Twice.{poll_due}

-- The row once it is put back, and the table with it.
abbrev pub again : TaskRecord → TaskRecord
again r = waiting_again r 0 none

abbrev pub retried : Uuid → TaskRecord → Db → Db
retried id r = on_tasks (λ rows. reject (has_id id) rows ++ again r ∷ [])

module _ (p : Platform) (id : Uuid) (r : TaskRecord) (d : Db) (t : DateTime) (ids : ℕ → Uuid)
    (known : find_task id d.task_envelopes ≡ some r) where
  own : has_id id r ≡ true
  own = rw known at (find_task-IsOwn id d.task_envelopes)

  find_task-retried : find_task id (retried id r d).task_envelopes ≡ some (again r)
  find_task-retried =
      first-select-append (has_id id) (reject (has_id id) d.task_envelopes) (again r)
        (any-reject (has_id id) d.task_envelopes) own

  pending_ids-retried :
      select (is_due t) (reject (has_id id) d.task_envelopes) ≡ []
      → pending_ids t (retried id r d).task_envelopes ≡ id ∷ []
  unfolding pending_ids
  pending_ids-retried idle =
      rw (select-concat (is_due t) (reject (has_id id) d.task_envelopes) (again r ∷ []), idle)
        (ap (λ i. i ∷ []) (eq_of_eqb r.id id own))

  retry_task-retried :
      retry_task id (ready d t ids) ≡ (ok (answer 202 id), ready (retried id r d) t ids)
  unfolding retry_task reset_to_pending core_row
  retry_task-retried = rw known refl

  -- With no database failure, POST /api/tasks/:id/retry answers 202 for any task in the table, whatever its
  -- status, and its response is gone. A worker with one dispatch in flight, be it of the same task, takes it
  -- up at its next poll, if no other task is due.
  pub retry_task-poll :
      (e : TaskEnvelope)
      → select (is_due t) (reject (has_id id) d.task_envelopes) ≡ []
      → let w = (retry_task id (ready d t ids)).1 in
        ((retry_task id (ready d t ids)).0 ≡ ok (answer 202 id))
        × ((get_response id w).0 ≡ ok none)
        × ((poll p (record { world = w; in_flight = 1; spawned = e ∷ [] })).spawned
            ≡ e ∷ envelope_from_row p t (map_task_row (again r)) ∷ [])
  unfolding get_response
  retry_task-poll e idle = rw retry_task-retried (
    refl,
    rw find_task-retried refl,
    ap (λ (k : Worker). k.spawned)
        (poll_due p (retried id r d) t ids id (again r) 1 (e ∷ []) (pending_ids-retried idle)
          find_task-retried refl refl refl),
  )
