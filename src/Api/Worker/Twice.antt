-- ===== src/Api/Worker/Twice.antt =====
-- A task that is due when the worker polls, and again at its next poll.
use open_mamba.Base.{ℕ, ◌+◌, ◌-◌, ◌++◌, ◌≡◌, refl, ap, leb, take, false, some, List, [], ◌∷◌}
use open_mamba.Types.{Uuid, DateTime, TaskEnvelope}
use open_mamba.Platform.{Platform}
use open_mamba.Lake.Tables.{TaskRecord, Db}
use open_mamba.Lake.Exec.{ready}
use open_mamba.Lake.Store.Rows.{find_task}
use open_mamba.Lake.Store.{list_pending, get_task, pending_ids, map_task_row}
use open_mamba.Api.Worker.{Worker, poll, started, worker_concurrency, envelope_from_row}

-- A poll with a slot to spare, where one task is due.
pub poll_due :
    (p : Platform) (d : Db) (t : DateTime) (ids : ℕ → Uuid) (id : Uuid) (r : TaskRecord) (n : ℕ)
    (es : List TaskEnvelope)
    → pending_ids t d.task_envelopes ≡ id ∷ []
    → find_task id d.task_envelopes ≡ some r
    → r.status ≡ "pending"
    → leb worker_concurrency n ≡ false
    → take (worker_concurrency - n) (id ∷ []) ≡ id ∷ []
    → poll p (record { world = ready d t ids; in_flight = n; spawned = es }) ≡ record {
      world = ready d t ids;
      in_flight = n + 1;
      spawned = es ++ envelope_from_row p t (map_task_row r) ∷ [];
    }
unfolding poll list_pending get_task map_task_row
poll_due p d t ids id r n es due found fresh room one = rw (room, due, one, found, fresh)

-- Until the dispatch of a task marks its row `running`, the next poll takes the same row again: with
-- no database failure, a worker just started that polls twice at one time, with nothing in between,
-- where one task alone is due, has dispatched it twice.
pub poll_twice :
    (p : Platform) (d : Db) (t : DateTime) (ids : ℕ → Uuid) (id : Uuid) (r : TaskRecord)
    → pending_ids t d.task_envelopes ≡ id ∷ []
    → find_task id d.task_envelopes ≡ some r
    → r.status ≡ "pending"
    → let e = envelope_from_row p t (map_task_row r) in
      (poll p (poll p (started (ready d t ids)))).spawned ≡ e ∷ e ∷ []
poll_twice p d t ids id r due found fresh =
    rw (poll_due p d t ids id r 0 [] due found fresh refl refl)
      (ap (λ (k : Worker). k.spawned) (poll_due p d t ids id r 1 _ due found fresh refl refl))
