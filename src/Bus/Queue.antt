-- ===== src/Bus/Queue.antt =====
-- The queue under everything that is done to it: tasks that are submitted, dispatches whole or call by
-- call, retries from the API, and the reaper, in any order and whatever fails in them.
pub mod Totals
use open_mamba.Base.{ℕ, ℤ, ◌≡◌, Bool, true, String, Option, List}
use open_mamba.Types.{Uuid, F64, running, TaskEnvelope}
use open_mamba.Lake.Exec.{World}
use open_mamba.Lake.Store.Accounted.{is_accounted}
use open_mamba.Lake.Tables.{Db}
use open_mamba.Lake.Store.{
  insert_envelope, envelope_row, update_status, save_response, complete_envelope,
}
use open_mamba.Lake.Store.Frame.{
  IsFrame, update_status-Keeps, save_response-Keeps, complete_envelope-Keeps,
  record_dispatch_failure-Keeps,
}
use open_mamba.Lake.Store.Reset.{
  record_dispatch_failure, reset_to_pending, reset_stuck_tasks, reap_stuck_tasks,
}
use open_mamba.Lake.Store.Unique.{count, HasUniqueIds, unique-IsFrame, insert_envelope-HasUniqueIds}
use open_mamba.Lake.Store.Resets.{
  reset_to_pending-Keeps, reset_stuck_tasks-Keeps, reap_stuck_tasks-Keeps,
}
use open_mamba.Bus.Dispatch.{Bus, submit, route}
use open_mamba.Bus.Dispatch.Frame.{route-Keeps}

-- A dispatch as a whole, one call of the lake, which the mutex makes one step, or a change of the world
-- that leaves the tasks alone. The calls of dispatches that run beside each other mix.
pub data Step (w w' : World) : Type 0 where
  submits :
      (e : TaskEnvelope)
      → count e.id w.db.task_envelopes ≡ 0
      → is_accounted (envelope_row e) ≡ true
      → (submit e w).1 ≡ w'
      → Step w w'
  dispatches : (b : Bus) (e : TaskEnvelope) → (route b e w).1 ≡ w' → Step w w'
  starts : (id : Uuid) (job : Option Uuid) → (update_status id running job w).1 ≡ w' → Step w w'
  answers : (id : Uuid) (response : String) → (save_response id response w).1 ≡ w' → Step w w'
  completes :
      (id : Uuid) (tokens_in tokens_out : ℤ) (cost : F64) (chain_tx : Option String)
      → (complete_envelope id tokens_in tokens_out cost chain_tx w).1 ≡ w'
      → Step w w'
  fails :
      (id : Uuid) (transient : Bool) (max_retries backoff_secs : ℕ)
      → (record_dispatch_failure id transient max_retries backoff_secs w).1 ≡ w'
      → Step w w'
  retries : (ids : List Uuid) → (reset_to_pending ids w).1 ≡ w' → Step w w'
  resets : (reset_stuck_tasks w).1 ≡ w' → Step w w'
  reaps : (timeout_secs : ℕ) → (reap_stuck_tasks timeout_secs w).1 ≡ w' → Step w w'
  elsewhere : w'.db.task_envelopes ≡ w.db.task_envelopes → Step w w'

pub data Reach (start : World) : World → Type 0 where
  here : Reach start start
  next : {w w' : World} → Reach start w → Step w w' → Reach start w'

-- What a property of the lake has to withstand to be kept by the queue.
pub record IsKept (P : Db → Type 0) : Type 0 where
  pub frame : (id : Uuid) → IsFrame id P
  pub inserts :
      (e : TaskEnvelope) (w : World)
      → count e.id w.db.task_envelopes ≡ 0
      → is_accounted (envelope_row e) ≡ true
      → P w.db
      → P (insert_envelope e w).1.db
  pub reads : (d d' : Db) → d'.task_envelopes ≡ d.task_envelopes → P d → P d'

module _ {P : Db → Type 0} (kept : IsKept P) where
  step : (w w' : World) → Step w w' → P w.db → P w'.db
  unfolding submit
  step w w' (submits e fresh accounted is) h = rw⁻¹ is (kept.inserts e w fresh accounted h)
  step w w' (dispatches b e is) h = rw⁻¹ is ((route-Keeps b e (kept.frame e.id)).at w h)
  step w w' (starts id job is) h = rw⁻¹ is ((update_status-Keeps id (kept.frame id) job).at w h)
  step w w' (answers id response is) h =
      rw⁻¹ is ((save_response-Keeps id (kept.frame id) response).at w h)
  step w w' (completes id tokens_in tokens_out cost chain_tx is) h =
      rw⁻¹ is
        ((complete_envelope-Keeps id (kept.frame id) tokens_in tokens_out cost chain_tx).at w h)
  step w w' (fails id transient max_retries backoff_secs is) h =
      rw⁻¹ is (
        (record_dispatch_failure-Keeps id (kept.frame id) transient max_retries backoff_secs).at w
          h)
  step w w' (retries ids is) h = rw⁻¹ is ((reset_to_pending-Keeps kept.frame ids).at w h)
  step w w' (resets is) h = rw⁻¹ is ((reset_stuck_tasks-Keeps kept.frame).at w h)
  step w w' (reaps n is) h = rw⁻¹ is ((reap_stuck_tasks-Keeps kept.frame n).at w h)
  step w w' (elsewhere is) h = kept.reads w.db w'.db is h

  pub Reach-IsKept : (start w : World) → Reach start w → P start.db → P w.db
  Reach-IsKept start w here h = h
  Reach-IsKept start w (next {w = v} r s) h = step v w s (Reach-IsKept start v r h)

-- From a world in which no two tasks have one id, any sequence of submissions of new ids, which are not done
-- without their tokens, of dispatches, single calls of dispatches, retries, resets, rounds of the reaper and
-- changes elsewhere, whatever SQL statements fail in them, leads to such a world again.
pub Reach-HasUniqueIds :
    (start w : World) → Reach start w → HasUniqueIds start.db → HasUniqueIds w.db
Reach-HasUniqueIds = Reach-IsKept (record {
  frame = unique-IsFrame;
  inserts = λ e w fresh accounted h. insert_envelope-HasUniqueIds e w fresh h;
  reads = λ d d' is h. rw is h;
})
