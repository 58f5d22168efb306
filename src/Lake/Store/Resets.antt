-- ===== src/Lake/Store/Resets.antt =====
-- The operations that put tasks back or fail them keep what every operation on one task keeps.
use open_mamba.Base.{◌≡◌, refl, false, ◌==◌, ℕ, String, Option, none, some, List, [], ◌∷◌}
use open_mamba.Types.{Uuid, DateTime}
use open_mamba.Lake.Tables.{TaskRecord, Db}
use open_mamba.Lake.Exec.{attempt, now, query}
use open_mamba.Lake.Keeps.{
  Keeps, Keeps-bind, Keeps-bind_returned, Keeps-with_conn, Keeps-pure, Keeps-now, Keeps-query,
  Keeps-attempt,
}
use open_mamba.Lake.Store.Rows.{core_row, replace_row}
use open_mamba.Lake.Store.Reset.{
  read_row, reset_row, reset_one, reset_loop, reset_to_pending, reset_stuck_tasks, bumped,
  set_status_row, set_status_delete_insert, mark_failed, reap_loop, reap_stuck_tasks, counted,
  retry_of,
}
use open_mamba.Lake.Store.Frame.{IsFrame, IsOwn, read_row-Returns, read_row-Keeps}

module _ {P : Db → Type 0} (frame : (id : Uuid) → IsFrame id P) where
  reset_row-Keeps :
      (id : Uuid) (updated : ℕ) (r : Option TaskRecord)
      → IsOwn id r
      → Keeps P (reset_row id updated r)
  unfolding core_row
  reset_row-Keeps id updated none own = Keeps-pure updated
  reset_row-Keeps id updated (some r) own =
      Keeps-bind (replace_row id _) _ ((frame id).replaces _ own refl) λ u. Keeps-pure _

  reset_one-Keeps : (id : Uuid) (updated : ℕ) → Keeps P (reset_one id updated)
  reset_one-Keeps id updated =
      Keeps-bind_returned (IsOwn id) (read_row id) _ (read_row-Returns id)
        (read_row-Keeps id (frame id)) (reset_row-Keeps id updated)

  reset_loop-Keeps : (ids : List Uuid) (updated : ℕ) → Keeps P (reset_loop ids updated)
  unfolding reset_loop
  reset_loop-Keeps [] updated = Keeps-pure updated
  reset_loop-Keeps (id ∷ ids) updated =
      Keeps-bind (reset_one id updated) _ (reset_one-Keeps id updated) (reset_loop-Keeps ids)

  pub reset_to_pending-Keeps : (ids : List Uuid) → Keeps P (reset_to_pending ids)
  unfolding reset_to_pending
  reset_to_pending-Keeps [] = Keeps-pure 0
  reset_to_pending-Keeps (id ∷ ids) = Keeps-with_conn _ (reset_loop-Keeps (id ∷ ids) 0)

  pub reset_stuck_tasks-Keeps : Keeps P reset_stuck_tasks
  unfolding reset_stuck_tasks
  reset_stuck_tasks-Keeps =
      Keeps-with_conn _ (Keeps-bind (query _) _ (Keeps-query _) reset_to_pending-Keeps)

  bumped-Keeps : (bump : Option ℕ) (id : Uuid) → Keeps P (bumped bump id)
  bumped-Keeps (some n) id = Keeps-pure n
  bumped-Keeps none id =
      Keeps-bind (read_row id) _ (read_row-Keeps id (frame id)) λ r. Keeps-pure (retry_of r)

  set_status_row-Keeps :
      (id : Uuid) (status : String) (nb : Option DateTime) (bump : Option ℕ) (r : Option TaskRecord)
      → (status == "done") ≡ false
      → IsOwn id r
      → Keeps P (set_status_row id status nb bump r)
  unfolding core_row
  set_status_row-Keeps id status nb bump none open' own = Keeps-pure tt
  set_status_row-Keeps id status nb bump (some r) open' own =
      Keeps-bind (bumped bump id) _ (bumped-Keeps bump id)
        λ retry. (frame id).replaces _ own (rw open' refl)

  pub mark_failed-Keeps : (id : Uuid) → Keeps P (mark_failed id)
  unfolding mark_failed set_status_delete_insert
  mark_failed-Keeps id = Keeps-with_conn _ (
      Keeps-bind_returned (IsOwn id) (read_row id) _ (read_row-Returns id)
        (read_row-Keeps id (frame id)) (λ r. set_status_row-Keeps id "failed" none none r refl))

  reap_loop-Keeps : (ids : List Uuid) (n : ℕ) → Keeps P (reap_loop ids n)
  unfolding reap_loop
  reap_loop-Keeps [] n = Keeps-pure n
  reap_loop-Keeps (id ∷ ids) n =
      Keeps-bind (attempt (mark_failed id)) _ (Keeps-attempt _ (mark_failed-Keeps id))
        λ r. reap_loop-Keeps ids (counted n r)

  pub reap_stuck_tasks-Keeps : (timeout_secs : ℕ) → Keeps P (reap_stuck_tasks timeout_secs)
  unfolding reap_stuck_tasks
  reap_stuck_tasks-Keeps timeout_secs = Keeps-with_conn _ (
      Keeps-bind now _ Keeps-now
        λ t. Keeps-bind (query _) _ (Keeps-query _) λ ids. reap_loop-Keeps ids 0)
