-- ===== src/Lake/Store/Reset.antt =====
-- store.rs: the operations that put a task back in the queue, or fail it, by DELETE and INSERT.
use open_mamba.Base.{
  ℕ, ◌+◌, ◌-◌, String, Bool, true, false, ◌&&◌, ◌||◌, Option, none, some, List, [], ◌∷◌, map, ◌==◌,
  ltb, if◌then◌else◌, select, update, unwrap_or,
}
use open_mamba.Types.{Uuid, DateTime, seconds}
use open_mamba.Lake.Tables.{TaskRecord}
use open_mamba.Lake.Exec.{Exec, pure, attempt, now, query, execute, with_conn, ◌>>=◌, ◌>>◌}
use open_mamba.Lake.Store.Rows.{find_task, has_id, on_tasks, core_row, replace_row}

-- `query_row(…).ok()`: no row and a failed statement read alike.
abbrev pub found : Option (Option TaskRecord) → Option TaskRecord
found none = none
found (some r) = r

abbrev pub read_row : Uuid → Exec (Option TaskRecord)
read_row id = do r ← attempt (query λ d. find_task id d.task_envelopes); pure (found r)

abbrev pub reset_row : Uuid → ℕ → Option TaskRecord → Exec ℕ
reset_row id updated none = pure updated
reset_row id updated (some r) = do
  replace_row id (core_row r "pending" (some 0) none)
  pure (updated + 1)

abbrev pub reset_one : Uuid → ℕ → Exec ℕ
reset_one id updated = do row ← read_row id; reset_row id updated row

unfoldable pub reset_loop : List Uuid → ℕ → Exec ℕ
unfolding replace_row
reset_loop [] updated = pure updated
reset_loop (id ∷ ids) updated = reset_one id updated >>= reset_loop ids

unfoldable pub reset_to_pending : List Uuid → Exec ℕ
unfolding reset_loop
reset_to_pending [] = pure 0
reset_to_pending (id ∷ ids) = with_conn (reset_loop (id ∷ ids) 0)

-- status IN ('dispatched','running','failed')
abbrev pub is_stuck : TaskRecord → Bool
is_stuck r = r.status == "dispatched" || r.status == "running" || r.status == "failed"

-- The guard `conn` is still held when `reset_to_pending` locks the connection again.
unfoldable pub reset_stuck_tasks : Exec ℕ
unfolding reset_to_pending
reset_stuck_tasks =
    with_conn
      do ids ← query λ d. map (λ r. r.id) (select is_stuck d.task_envelopes); reset_to_pending ids

abbrev pub retry_of : Option TaskRecord → ℕ
retry_of none = 0
retry_of (some r) = unwrap_or r.retry_count 0

-- `retry_bump`, or the COALESCE(retry_count, 0) of the row.
abbrev pub bumped : Option ℕ → Uuid → Exec ℕ
bumped (some n) id = pure n
bumped none id = do r ← read_row id; pure (retry_of r)

abbrev pub set_status_row :
    Uuid → String → Option DateTime → Option ℕ → Option TaskRecord → Exec Unit
set_status_row id status nb bump none = pure tt
set_status_row id status nb bump (some r) = do
  retry ← bumped bump id
  replace_row id (core_row r status (some retry) nb)

unfoldable pub set_status_delete_insert : Uuid → String → Option DateTime → Option ℕ → Exec Unit
unfolding replace_row
set_status_delete_insert id status nb bump =
    with_conn do row ← read_row id; set_status_row id status nb bump row

unfoldable pub mark_failed : Uuid → Exec Unit
unfolding set_status_delete_insert
mark_failed id = set_status_delete_insert id "failed" none none

-- dispatched_at IS NOT NULL AND dispatched_at < ?
abbrev pub started_before : DateTime → Option DateTime → Bool
started_before cutoff none = false
started_before cutoff (some t) = ltb t cutoff

abbrev pub overruns : DateTime → TaskRecord → Bool
overruns cutoff r = r.status == "running" && started_before cutoff r.dispatched_at

abbrev pub counted : ℕ → Option (Unit {0}) → ℕ
counted n none = n
counted n (some _) = n + 1

unfoldable pub reap_loop : List Uuid → ℕ → Exec ℕ
unfolding mark_failed
reap_loop [] n = pure n
reap_loop (id ∷ ids) n = attempt (mark_failed id) >>= λ r. reap_loop ids (counted n r)

-- Here too the guard `conn` is held across `mark_failed`, which locks again.
unfoldable pub reap_stuck_tasks : ℕ → Exec ℕ
unfolding reap_loop
reap_stuck_tasks timeout_secs = with_conn do
  t ← now
  ids ← query λ d. map (λ r. r.id) (select (overruns (t - seconds timeout_secs)) d.task_envelopes)
  reap_loop ids 0

-- `record_dispatch_failure`: whether the task was put back for a later try.
abbrev pub put_back : Uuid → ℕ → DateTime → Option TaskRecord → Exec Bool
put_back id retry nb none = pure false
put_back id retry nb (some r) = do
  replace_row id (core_row r "pending" (some (retry + 1)) (some nb))
  pure true

abbrev pub fail_for_good : Uuid → Exec Bool
fail_for_good id = do
  execute (on_tasks (update (has_id id) λ r. record r { status = "failed" }))
  pure false

abbrev pub retry_later : Uuid → ℕ → DateTime → Exec Bool
retry_later id retry nb = do row ← read_row id; put_back id retry nb row

unfoldable pub record_dispatch_failure : Uuid → Bool → ℕ → ℕ → Exec Bool
unfolding replace_row
record_dispatch_failure id transient max_retries backoff_secs = with_conn do
  seen ← read_row id
  t ← now
  if transient && ltb (retry_of seen) max_retries
      then retry_later id (retry_of seen) (t + seconds backoff_secs)
      else fail_for_good id
