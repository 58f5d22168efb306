-- ===== src/Api/Worker/Handover.antt =====
-- From the envelope that is submitted to the envelope that the worker dispatches.
use open_mamba.Base.{
  ℕ, pos, ◌≡◌, refl, true, false, some, none, List, [], ◌∷◌, ◌++◌, leb, any, eqb_refl,
  first-select-append, unwrap_or,
}
use open_mamba.Types.{
  Uuid, DateTime, TaskEnvelope, TaskSource, claude_desktop, claude_opus, cron, api, webhook,
  pending, source_as_str, status_as_str,
}
use open_mamba.Platform.{Platform}
use open_mamba.Lake.Tables.{Db, TaskRecord}
use open_mamba.Lake.Exec.{ok, ready, ◌>>◌}
use open_mamba.Lake.Store.{get_task, insert_envelope, envelope_row, map_task_row}
use open_mamba.Lake.Store.Rows.{has_id, find_task, on_tasks}
use open_mamba.Bus.Dispatch.{submit}
use open_mamba.Api.Worker.{source_of, created_at_of, envelope_from_row}

source_of-source_as_str : (s : TaskSource) → source_of (source_as_str s) ≡ s
unfolding source_of source_as_str
source_of-source_as_str claude_desktop = refl
source_of-source_as_str claude_opus = refl
source_of-source_as_str cron = refl
source_of-source_as_str api = refl
source_of-source_as_str webhook = refl

-- A row that is put last is found by its id if none before it has that id.
pub find_task-append :
    (r : TaskRecord) (rows : List TaskRecord)
    → any (has_id r.id) rows ≡ false
    → find_task r.id (rows ++ r ∷ []) ≡ some r
find_task-append r rows h = first-select-append (has_id r.id) rows r h (eqb_refl r.id)

-- The envelope without what the worker does not read back, and with what the text of its time of
-- creation parses to, or else the time of the call.
abbrev pub requeued : Platform → DateTime → TaskEnvelope → TaskEnvelope
requeued p t e = record e {
  created_at = unwrap_or (p.parse_date_time (p.timestamp_to_varchar e.created_at)) t;
  status = pending;
  openfang_job_id = none;
  encrypted_payload = none;
  chain_tx = none;
  dispatched_at = none;
  completed_at = none;
}

-- The row of a submitted envelope: its own fields, no answer, no retry and nothing to wait for.
abbrev pub submitted_row : TaskEnvelope → TaskRecord
submitted_row e = record {
  id = e.id;
  project = e.project;
  source = source_as_str e.source;
  assigned_agent = e.assigned_agent;
  skill = e.skill;
  model = e.model;
  payload = e.payload;
  priority = pos e.priority;
  status = status_as_str e.status;
  openfang_job_id = e.openfang_job_id;
  tokens_in = e.tokens_in;
  tokens_out = e.tokens_out;
  cost_usd = e.cost_usd;
  encrypted_payload = e.encrypted_payload;
  chain_tx = e.chain_tx;
  created_at = e.created_at;
  dispatched_at = e.dispatched_at;
  completed_at = e.completed_at;
  response = none;
  retry_count = some 0;
  not_before = none;
}

-- With no database failure, an envelope of priority 127 at most, under an id that the table does not
-- have, is stored, and the worker reads back what it dispatches: the same id, project, source, which
-- survives the way through text, agent, skill, model, payload, priority, tokens and cost. The time of
-- creation is what the text that DuckDB prints of the submitted one parses to, and where that text does
-- not parse, the time at which the row is read. The status is pending, and the job,
-- the encrypted payload, the transaction and the times of dispatch and completion are not read back.
pub get_task-submit :
    (p : Platform) (e : TaskEnvelope) (d : Db) (t : DateTime) (ids : ℕ → Uuid)
    → leb e.priority 127 ≡ true
    → any (has_id e.id) d.task_envelopes ≡ false
    → ((submit e >> get_task e.id) (ready d t ids) ≡ (
      ok (some (map_task_row (submitted_row e))),
      ready (on_tasks (λ rows. rows ++ submitted_row e ∷ []) d) t ids,
    ))
      × (envelope_from_row p t (map_task_row (submitted_row e)) ≡ requeued p t e)
unfolding submit insert_envelope get_task envelope_row map_task_row envelope_from_row created_at_of
get_task-submit p e d t ids fits fresh = (
  rw (fits, find_task-append (submitted_row e) d.task_envelopes fresh) refl,
  rw (source_of-source_as_str e.source) refl,
)
