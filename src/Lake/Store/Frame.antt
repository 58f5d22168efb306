-- ===== src/Lake/Store/Frame.antt =====
-- What a property of the lake has to withstand to be kept by every operation on one task, and one that
-- does: the rows of the other tasks, in their order.
use open_mamba.Base.{
  ℕ, ℤ, ◌≡◌, refl, ap, ◌∙◌, String, Bool, true, false, not, Option, none, some, List, [], ◌∷◌,
  select, update, select-update_other, select-append, select-reject, Bool-cases, inl, inr, ltb,
  ◌&&◌, ◌+◌, eqb,
}
use open_mamba.Lake.Store.Accounted.{is_accounted}
use open_mamba.Types.{Uuid, DateTime, F64, running, status_as_str, BillingRecord, seconds}
use open_mamba.Lake.Tables.{TaskRecord, Db}
use open_mamba.Lake.Exec.{World, execute, now, continue, dropped, run_statement, pure}
use open_mamba.Lake.Keeps.{
  Keeps, keeps_rules, Returns, Keeps-bind, Keeps-bind_returned, Keeps-with_conn, Keeps-execute,
  Keeps-pure, Keeps-if, Keeps-now, Keeps-insert_unique,
}
use open_mamba.Lake.Store.{update_status, complete_envelope, save_response}
use open_mamba.Lake.Store.Rows.{has_id, find_task, on_tasks, core_row, replace_row}
use open_mamba.Lake.Store.Reset.{found, read_row, put_back, retry_of, record_dispatch_failure}
use open_mamba.Lake.Records.{insert_billing}

-- UPDATEs of the task that keep its id and leave no row done without its tokens, the DELETE and INSERT of such
-- a row, and new bills.
pub record IsFrame (id : Uuid) (P : Db → Type 0) : Type 0 where
  pub updates :
      (f : TaskRecord → TaskRecord)
      → ((r : TaskRecord) → (f r).id ≡ r.id)
      → ((r : TaskRecord) → is_accounted r ≡ true → is_accounted (f r) ≡ true)
      → (d : Db) → P d
      → P (on_tasks (update (has_id id) f) d)
  pub replaces :
      (row : TaskRecord)
      → has_id id row ≡ true
      → is_accounted row ≡ true
      → Keeps P (replace_row id row)
  pub bills : (d : Db) (bs : List BillingRecord) → P d → P (record d { billing_records = bs })

-- A row that was found by the id has it.
abbrev pub IsOwn : Uuid → Option TaskRecord → Type 0
IsOwn id none = Unit
IsOwn id (some r) = has_id id r ≡ true

pub find_task-IsOwn : (id : Uuid) (rows : List TaskRecord) → IsOwn id (find_task id rows)
find_task-IsOwn id [] = tt
find_task-IsOwn id (r ∷ rows) = elim (Bool-cases (has_id id r)) [
  | inl here ↦ rw here here
  | inr later ↦ rw later (find_task-IsOwn id rows)
]

found_row :
    (id : Uuid) (faults : List Bool) (w : World)
    → let o = dropped (run_statement (λ d. (find_task id d.task_envelopes, d)) faults w) in
      Returns (IsOwn id) (continue o.0 (λ r. pure (found r)) o.1).0
found_row id [] w = find_task-IsOwn id w.db.task_envelopes
found_row id (true ∷ rest) w = tt
found_row id (false ∷ rest) w = find_task-IsOwn id w.db.task_envelopes

pub read_row-Returns : (id : Uuid) (w : World) → Returns (IsOwn id) (read_row id w).0
read_row-Returns id w = found_row id w.faults w

module _ (id : Uuid) {P : Db → Type 0} (frame : IsFrame id P) where
  update-Keeps :
      (f : TaskRecord → TaskRecord)
      → ((r : TaskRecord) → (f r).id ≡ r.id)
      → ((r : TaskRecord) → is_accounted r ≡ true → is_accounted (f r) ≡ true)
      → Keeps P (execute (on_tasks (update (has_id id) f)))
  update-Keeps f keeps accounts = Keeps-execute _ (frame.updates f keeps accounts)

  pub update_status-Keeps : (job : Option Uuid) → Keeps P (update_status id running job)
  unfolding update_status status_as_str
  update_status-Keeps job =
      Keeps-with_conn _ (Keeps-bind now _ Keeps-now λ t. update-Keeps _ (λ r. refl) λ r h. refl)

  pub complete_envelope-Keeps :
      (tokens_in tokens_out : ℤ) (cost : F64) (chain_tx : Option String)
      → Keeps P (complete_envelope id tokens_in tokens_out cost chain_tx)
  unfolding complete_envelope
  complete_envelope-Keeps tokens_in tokens_out cost chain_tx =
      Keeps-with_conn _ (Keeps-bind now _ Keeps-now λ t. update-Keeps _ (λ r. refl) λ r h. refl)

  pub save_response-Keeps : (response : String) → Keeps P (save_response id response)
  unfolding save_response
  save_response-Keeps response = Keeps-with_conn _ (update-Keeps _ (λ r. refl) λ r h. h)

  pub read_row-Keeps : Keeps P (read_row id)
  read_row-Keeps = search keeps_rules

  put_back-Keeps :
      (retry : ℕ) (nb : DateTime) (r : Option TaskRecord)
      → IsOwn id r
      → Keeps P (put_back id retry nb r)
  unfolding core_row
  put_back-Keeps retry nb none own = Keeps-pure false
  put_back-Keeps retry nb (some r) own =
      Keeps-bind (replace_row id _) _ (frame.replaces _ own refl) λ u. Keeps-pure true

  pub record_dispatch_failure-Keeps :
      (transient : Bool) (max_retries backoff_secs : ℕ)
      → Keeps P (record_dispatch_failure id transient max_retries backoff_secs)
  unfolding record_dispatch_failure
  record_dispatch_failure-Keeps transient max_retries backoff_secs = Keeps-with_conn _ (
      Keeps-bind (read_row id) _ read_row-Keeps λ seen. Keeps-bind now _ Keeps-now λ t.
        Keeps-if (transient && ltb (retry_of seen) max_retries) _ _
          (Keeps-bind_returned (IsOwn id) (read_row id) _ (read_row-Returns id) read_row-Keeps
            (put_back-Keeps (retry_of seen) (t + seconds backoff_secs)))
          (Keeps-bind (execute _) _ (update-Keeps _ (λ r. refl) λ r h. refl) λ u. Keeps-pure false))

  pub insert_billing-Keeps : (b : BillingRecord) → Keeps P (insert_billing b)
  unfolding insert_billing
  insert_billing-Keeps b = Keeps-with_conn _ (Keeps-insert_unique _ _ λ d h. frame.bills d _ h)

abbrev pub others : Uuid → List TaskRecord → List TaskRecord
others id rows = select (λ r. not (has_id id r)) rows

-- The rows of the tasks with other ids are these.
abbrev pub Others : Uuid → List TaskRecord → Db → Type 0
Others id rows d = others id d.task_envelopes ≡ rows

not_other : (id : Uuid) (r : TaskRecord) → has_id id r ≡ true → not (has_id id r) ≡ false
not_other id r h = rw h refl

module _ (id : Uuid) (rows : List TaskRecord) where
  replace_row-Others :
      (row : TaskRecord)
      → has_id id row ≡ true
      → is_accounted row ≡ true
      → Keeps (Others id rows) (replace_row id row)
  unfolding replace_row
  replace_row-Others row own accounted =
      Keeps-bind (execute _) _
        (Keeps-execute _ λ d h.
          select-reject (λ r. not (has_id id r)) (has_id id) d.task_envelopes (not_other id) ∙ h)
        λ u. Keeps-execute _ λ d h.
          select-append (λ r. not (has_id id r)) d.task_envelopes row (not_other id row own) ∙ h

  pub Others-IsFrame : IsFrame id (Others id rows)
  Others-IsFrame = record {
    updates = λ f keeps accounts d h.
        select-update_other (λ r. not (has_id id r)) (has_id id) f d.task_envelopes
          (λ r. ap (λ i. not (eqb i id)) (keeps r)) (not_other id)
        ∙ h;
    replaces = replace_row-Others;
    bills = λ d bs h. h;
  }
