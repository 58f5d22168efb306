-- ===== src/Lake/Store/Retry.antt =====
-- What the retry, the reset and the reaper of store.rs do to the task table.
use open_mamba.Base.{
  Option, none, ℕ, ◌+◌, ◌-◌, ◌≡◌, refl, Bool, true, false, ◌&&◌, some, List, [], ◌∷◌, ◌++◌, ltb,
  if◌then◌else◌, select, reject, update, inl, inr, Bool-cases,
}
use open_mamba.Types.{Uuid, DateTime, seconds}
use open_mamba.Lake.Tables.{TaskRecord, Db}
use open_mamba.Lake.Exec.{ok, err, deadlock, ready, faulty, database_error}
use open_mamba.Lake.Store.Rows.{find_task, has_id, on_tasks, core_row}
use open_mamba.Lake.Store.Reset.{
  reset_to_pending, reset_stuck_tasks, reap_stuck_tasks, record_dispatch_failure, is_stuck,
  overruns, retry_of,
}

-- A row that is put back: what was submitted stays, what a dispatch left is gone.
abbrev pub waiting_again : TaskRecord → ℕ → Option DateTime → TaskRecord
waiting_again r retries nb = record r {
  status = "pending";
  openfang_job_id = none;
  tokens_in = none;
  tokens_out = none;
  cost_usd = none;
  encrypted_payload = none;
  chain_tx = none;
  dispatched_at = none;
  completed_at = none;
  response = none;
  retry_count = some retries;
  not_before = nb;
}

-- The table after a failed dispatch: the row goes to the end as pending, with one more retry and a
-- time before which it is not taken; or it is marked failed.
abbrev pub after_failure : Uuid → Bool → ℕ → TaskRecord → List TaskRecord → List TaskRecord
after_failure id retried nb r rows =
    if retried
    then reject (has_id id) rows ++ waiting_again r (retry_of (some r) + 1) (some nb) ∷ []
    else update (has_id id) (λ s. record s { status = "failed" }) rows

-- With no database failure, `record_dispatch_failure` on a task that is in the table puts it back
-- exactly when the failure is transient and the row has had fewer than `max_retries` retries: as
-- pending, at the end of the table, with one more retry and a time to wait for. Else it marks it failed.
pub record_dispatch_failure_lem :
    (id : Uuid) (transient : Bool) (max_retries backoff_secs : ℕ) (d : Db) (t : DateTime)
    (ids : ℕ → Uuid) (r : TaskRecord)
    → find_task id d.task_envelopes ≡ some r
    → let retried = transient && ltb (retry_of (some r)) max_retries in
      record_dispatch_failure id transient max_retries backoff_secs (ready d t ids) ≡ (
        ok retried,
        ready (on_tasks (after_failure id retried (t + seconds backoff_secs) r) d) t ids,
      )
unfolding record_dispatch_failure core_row
record_dispatch_failure_lem id transient max_retries backoff_secs d t ids r e =
    elim (Bool-cases (transient && ltb (retry_of (some r)) max_retries)) [
      | inl yes_retry ↦ rw (e, yes_retry, e)
      | inr no_retry ↦ rw (e, no_retry)
    ]

-- With no database failure up to there, `reap_stuck_tasks` never returns where one task or more is
-- overdue, and the connection stays locked.
pub reap_stuck_tasks-deadlock :
    (timeout_secs : ℕ) (d : Db) (t : DateTime) (ids : ℕ → Uuid) (r : TaskRecord)
    (rest : List TaskRecord)
    → select (overruns (t - seconds timeout_secs)) d.task_envelopes ≡ r ∷ rest
    → ((reap_stuck_tasks timeout_secs (ready d t ids)).0 ≡ deadlock)
      × ((reap_stuck_tasks timeout_secs (ready d t ids)).1.locked ≡ true)
unfolding reap_stuck_tasks
reap_stuck_tasks-deadlock timeout_secs d t ids r rest e = rw e (refl, refl)

-- With no database failure up to there, `reset_stuck_tasks` never returns where one task or more is
-- dispatched, running or failed, and the connection stays locked.
reset_stuck_tasks-deadlock :
    (d : Db) (t : DateTime) (ids : ℕ → Uuid) (r : TaskRecord) (rest : List TaskRecord)
    → select is_stuck d.task_envelopes ≡ r ∷ rest
    → ((reset_stuck_tasks (ready d t ids)).0 ≡ deadlock)
      × ((reset_stuck_tasks (ready d t ids)).1.locked ≡ true)
unfolding reset_stuck_tasks
reset_stuck_tasks-deadlock d t ids r rest e = rw e (refl, refl)

-- If the statement that fails is the INSERT after the DELETE, `reset_to_pending` of one task ends with
-- the error, and the rows with that id are gone from the table.
pub reset_to_pending_loss :
    (id : Uuid) (d : Db) (t : DateTime) (ids : ℕ → Uuid) (r : TaskRecord) (faults : List Bool)
    → find_task id d.task_envelopes ≡ some r
    → reset_to_pending (id ∷ []) (faulty (false ∷ false ∷ true ∷ faults) d t ids)
      ≡ (err database_error, faulty faults (on_tasks (reject (has_id id)) d) t ids)
unfolding reset_to_pending
reset_to_pending_loss id d t ids r faults e = rw e
