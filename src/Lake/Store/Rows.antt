-- ===== src/Lake/Store/Rows.antt =====
-- Rows of task_envelopes: finding one, and the DELETE and INSERT that replace one.
use open_mamba.Base.{ℕ, String, Bool, Option, none, List, [], ◌∷◌, ◌++◌, eqb, select, reject, first}
use open_mamba.Types.{Uuid, DateTime}
use open_mamba.Lake.Tables.{TaskRecord, Db}
use open_mamba.Lake.Exec.{Exec, execute, ◌>>◌}

-- WHERE id=?
abbrev pub has_id : Uuid → TaskRecord → Bool
has_id id r = eqb r.id id

abbrev pub find_task : Uuid → List TaskRecord → Option TaskRecord
find_task id rows = first (select (has_id id) rows)

abbrev pub on_tasks : (List TaskRecord → List TaskRecord) → Db → Db
on_tasks f d = record d { task_envelopes = f d.task_envelopes }

-- The columns that DELETE and INSERT carry over; the rest take their defaults or what is given.
unfoldable pub core_row : TaskRecord → String → Option ℕ → Option DateTime → TaskRecord
core_row r status retry nb = record {
  id = r.id;
  project = r.project;
  source = r.source;
  assigned_agent = r.assigned_agent;
  skill = r.skill;
  model = r.model;
  payload = r.payload;
  priority = r.priority;
  status = status;
  openfang_job_id = none;
  tokens_in = none;
  tokens_out = none;
  cost_usd = none;
  encrypted_payload = none;
  chain_tx = none;
  created_at = r.created_at;
  dispatched_at = none;
  completed_at = none;
  response = none;
  retry_count = retry;
  not_before = nb;
}

-- DELETE by id, then INSERT: two statements, with no transaction round them.
unfoldable pub replace_row : Uuid → TaskRecord → Exec Unit
replace_row id row = do
  execute (on_tasks (reject (has_id id)))
  execute (on_tasks (λ rows. rows ++ row ∷ []))
