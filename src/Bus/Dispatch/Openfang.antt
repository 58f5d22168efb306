-- ===== src/Bus/Dispatch/Openfang.antt =====
-- A dispatch to an agent: what it leaves behind on each outcome.
use open_mamba.Base.{ℕ, ◌+◌, ◌≡◌, refl, String, ◌&&◌, some, ltb, update, if◌then◌else◌}
use open_mamba.Types.{Uuid, DateTime, seconds, TaskEnvelope, status_as_str}
use open_mamba.Platform.{reply, error}
use open_mamba.Lake.Tables.{TaskRecord, Db}
use open_mamba.Lake.Exec.{World, err, ready}
use open_mamba.Lake.Store.{update_status}
use open_mamba.Lake.Store.Rows.{find_task, has_id, on_tasks}
use open_mamba.Lake.Store.Retry.{after_failure}
use open_mamba.Lake.Store.Reset.{retry_of}
use open_mamba.Bus.Errors.{is_transient_error}
use open_mamba.Bus.Openfang.{resolve_agent_id, dispatch}
use open_mamba.Bus.Dispatch.{Bus, dispatch_openfang}
use open_mamba.Bus.Dispatch.Settling.{running_row, give_up-running}

-- A dispatch whose agent cannot be resolved ends with the error and leaves everything as it was: the
-- task is pending still, with no retry counted and no time to wait for.
pub dispatch_openfang-resolve_agent_id :
    (b : Bus) (e : TaskEnvelope) (msg : String) (w : World)
    → resolve_agent_id b.openfang e.assigned_agent ≡ error msg
    → dispatch_openfang b e w ≡ (err msg, w)
unfolding dispatch_openfang
dispatch_openfang-resolve_agent_id b e msg w h = rw h refl

-- With no database failure, a turn that fails once its agent is resolved ends with the error of the
-- turn. A transient error on a task with fewer than two retries puts the task back, to wait for 30
-- seconds; any other fails it.
pub dispatch_openfang-record_dispatch_failure :
    (b : Bus) (e : TaskEnvelope) (agent msg : String) (d : Db) (t : DateTime) (ids : ℕ → Uuid)
    (r : TaskRecord)
    → resolve_agent_id b.openfang e.assigned_agent ≡ reply agent
    → dispatch b.platform b.openfang e agent ≡ error msg
    → find_task e.id d.task_envelopes ≡ some r
    → let transient = is_transient_error b.platform msg in
      let retried = transient && ltb (retry_of (some r)) 2 in
      let rows = update (has_id e.id) (running_row t) d.task_envelopes in
      dispatch_openfang b e (ready d t ids) ≡ (
        err msg,
        ready
            (on_tasks
              (λ _.
                after_failure e.id retried
                  (t + seconds (if transient then 30 else 0))
                  (running_row t r)
                  rows)
              d)
            t
            ids,
      )
unfolding dispatch_openfang update_status status_as_str
dispatch_openfang-record_dispatch_failure b e agent msg d t ids r resolved failed known =
    rw (resolved, failed) (give_up-running b e d t ids 30 msg r known)
