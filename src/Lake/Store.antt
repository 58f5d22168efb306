-- ===== src/Lake/Store.antt =====
-- crates/mamba-lake/src/store.rs: the task queue in the table task_envelopes. The other tables of
-- that file are in Lake/Records. Each SQL statement is one step; its WHERE clause is a test on rows.
pub mod Rows
pub mod Reset
pub mod Queue
pub mod Retry
pub mod Accounted
pub mod Frame
pub mod Resets
pub mod Unique
use open_mamba.Base.{
  ℕ, ℤ, pos, String, Bool, true, ◌&&◌, Option, none, some, List, [], ◌∷◌, ◌++◌, map, ◌==◌, leb,
  leb_ℤ, if◌then◌else◌, select, update, sort_by, take, length,
}
use open_mamba.Types.{Uuid, DateTime, F64, TaskEnvelope, TaskStatus, source_as_str, status_as_str}
use open_mamba.Lake.Tables.{TaskRecord, TaskRow}
use open_mamba.Lake.Exec.{limited, Exec, fail, now, query, execute, with_conn, ◌>>=◌}
use open_mamba.Lake.Analytics.{keys}
use Prim.Native.String.{◌++◌ as append}
use Rows.{has_id, find_task, on_tasks}

unfoldable pub map_task_row : TaskRecord → TaskRow
map_task_row r = record {
  id = r.id;
  project = r.project;
  source = r.source;
  assigned_agent = r.assigned_agent;
  skill = r.skill;
  model = r.model;
  payload = r.payload;
  priority = r.priority;
  status = r.status;
  tokens_in = r.tokens_in;
  tokens_out = r.tokens_out;
  cost_usd = r.cost_usd;
  created_at = r.created_at;
  dispatched_at = r.dispatched_at;
  completed_at = r.completed_at;
  response = r.response;
}

-- The row of INSERT in `insert_envelope`: the columns that it does not name take their defaults.
unfoldable pub envelope_row : TaskEnvelope → TaskRecord
envelope_row e = record {
  id = e.id;
  project = e.project;
  source = source_as_str e.source;
  assigned_agent = e.assigned_agent;
  skill = e.skill;
  model = e.model;
  payload = e.payload;
  priority = pos e.priority;
  status = status_as_str e.status;
  openfang_job_id = e.openfang_job_id;
  tokens_in = e.tokens_in;
  tokens_out = e.tokens_out;
  cost_usd = e.cost_usd;
  encrypted_payload = e.encrypted_payload;
  chain_tx = e.chain_tx;
  created_at = e.created_at;
  dispatched_at = e.dispatched_at;
  completed_at = e.completed_at;
  response = none;
  retry_count = some 0;
  not_before = none;
}

-- A u8 above 127 has no TINYINT.
unfoldable pub insert_envelope : TaskEnvelope → Exec Unit
insert_envelope e = with_conn (
    if leb e.priority 127
    then execute (on_tasks (λ rows. rows ++ envelope_row e ∷ []))
    else fail "Conversion Error")

unfoldable pub update_status : Uuid → TaskStatus → Option Uuid → Exec Unit
update_status id status job = with_conn do
  t ← now
  execute (
      on_tasks (
        update (has_id id) λ r. record r {
          status = status_as_str status;
          openfang_job_id = job;
          dispatched_at = some t;
        }))

unfoldable pub complete_envelope : Uuid → ℤ → ℤ → F64 → Option String → Exec Unit
complete_envelope id tokens_in tokens_out cost chain_tx = with_conn do
  t ← now
  execute (
      on_tasks (
        update (has_id id) λ r. record r {
          status = "done";
          tokens_in = some tokens_in;
          tokens_out = some tokens_out;
          cost_usd = some cost;
          chain_tx = chain_tx;
          completed_at = some t;
        }))

unfoldable pub save_response : Uuid → String → Exec Unit
save_response id response =
    with_conn (execute (on_tasks (update (has_id id) λ r. record r { response = some response })))

abbrev pub flatten_response : Option TaskRecord → Option String
flatten_response none = none
flatten_response (some r) = r.response

unfoldable pub get_response : Uuid → Exec (Option String)
get_response id = with_conn (query λ d. flatten_response (find_task id d.task_envelopes))

abbrev pub map_row : Option TaskRecord → Option TaskRow
map_row none = none
map_row (some r) = some (map_task_row r)

unfoldable pub get_task : Uuid → Exec (Option TaskRow)
get_task id = with_conn (query λ d. map_row (find_task id d.task_envelopes))

-- A filter that is absent lets every row through.
abbrev pub matches : Option String → String → Bool
matches none s = true
matches (some p) s = s == p

unfoldable pub query_tasks : Option String → Option String → ℤ → Exec (List TaskRow)
query_tasks project status limit = with_conn (
    limited limit λ limit. query λ d. map map_task_row (
      take limit (
        sort_by (λ a b. leb b.created_at a.created_at)
          (select (λ r. matches project r.project && matches status r.status) d.task_envelopes))))

unfoldable pub debug_count_all : Exec ℕ
debug_count_all = with_conn (query λ d. length d.task_envelopes)

unfoldable pub status_counts : (ℕ → String) → List TaskRecord → List String
unfolding keys
status_counts show_ℕ rows =
    let count = λ (s : String). length (select (λ (r : TaskRecord). r.status == s) rows) in
    map (λ s. append s (append "=" (show_ℕ (count s))))
      (keys ◌==◌ (map (λ (r : TaskRecord). r.status) rows))

unfoldable pub debug_status_counts : (ℕ → String) → Exec (List String)
unfolding status_counts
debug_status_counts show_ℕ = with_conn (query λ d. status_counts show_ℕ d.task_envelopes)

-- status='pending' AND (not_before IS NULL OR not_before <= now())
abbrev pub past : Option DateTime → DateTime → Bool
past none t = true
past (some nb) t = leb nb t

abbrev pub is_due : DateTime → TaskRecord → Bool
is_due t r = r.status == "pending" && past r.not_before t

-- ORDER BY priority ASC, created_at ASC
abbrev pub runs_before : TaskRecord → TaskRecord → Bool
runs_before a b =
    if leb_ℤ b.priority a.priority
    then leb_ℤ a.priority b.priority && leb a.created_at b.created_at
    else true

unfoldable pub pending_ids : DateTime → List TaskRecord → List Uuid
pending_ids t rows = map (λ r. r.id) (sort_by runs_before (select (is_due t) rows))

unfoldable pub list_pending : Exec (List Uuid)
list_pending = with_conn do t ← now; query λ d. pending_ids t d.task_envelopes
