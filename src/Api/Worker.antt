-- ===== src/Api/Worker.antt =====
-- crates/mamba-api/src/worker.rs: the queue worker. A dispatch runs in a task of its own, so between
-- two polls the world may have changed in any way; the counter and the spawned tasks are the
-- worker's own state.
pub mod Slots
pub mod Twice
pub mod Delivery
pub mod Handover
pub mod Stalled
use open_mamba.Base.{
  ℕ, suc, ◌+◌, ◌-◌, ◌<◌, ◌≤◌, ◌≡◌, String, Bool, true, false, Option, none, some, List, [], ◌∷◌,
  ◌++◌, ◌==◌, leb, if◌then◌else◌, take, ℤ, unwrap_or,
}
use open_mamba.Types.{
  Uuid, DateTime, TaskEnvelope, TaskSource, claude_desktop, claude_opus, cron, api, webhook,
  TaskStatus, pending,
}
use open_mamba.Platform.{Platform}
use open_mamba.Lake.Tables.{TaskRow}
use open_mamba.Lake.Exec.{Exec, World, Outcome, ok, err, panic, deadlock}
use open_mamba.Lake.Store.{list_pending, get_task}
use open_mamba.Api.Scheduler.{max_zero}

abbrev pub worker_concurrency : ℕ
worker_concurrency = 2

unfoldable pub source_of : String → TaskSource
source_of s =
    if s == "claude_desktop"
    then claude_desktop
    else if s == "claude_opus"
    then claude_opus
    else if s == "cron"
    then cron
    else if s == "webhook"
    then webhook
    else api

-- `row.created_at` is the text that DuckDB prints: where it does not parse, the time is that of the call.
unfoldable pub created_at_of : Platform → DateTime → DateTime → DateTime
created_at_of p t created = unwrap_or (p.parse_date_time (p.timestamp_to_varchar created)) t

-- `envelope_from_row`, in routes.rs, called at the time `t`.
unfoldable pub envelope_from_row : Platform → DateTime → TaskRow → TaskEnvelope
unfolding source_of created_at_of
envelope_from_row p t r = record {
  id = r.id;
  project = r.project;
  source = source_of r.source;
  assigned_agent = r.assigned_agent;
  skill = r.skill;
  model = r.model;
  payload = r.payload;
  priority = max_zero r.priority;
  status = pending;
  openfang_job_id = none;
  tokens_in = r.tokens_in;
  tokens_out = r.tokens_out;
  cost_usd = r.cost_usd;
  encrypted_payload = none;
  chain_tx = none;
  created_at = created_at_of p t r.created_at;
  dispatched_at = none;
  completed_at = none;
}

pub record Worker : Type 0 where
  pub world : World
  pub in_flight : ℕ
  pub spawned : List TaskEnvelope

-- `counter.fetch_add(1)` and the spawn of the dispatch.
abbrev pub spawn : Worker → TaskEnvelope → Worker
spawn k e = record k { in_flight = k.in_flight + 1; spawned = k.spawned ++ e ∷ [] }

abbrev pub take_up : Platform → Worker → Outcome (Option TaskRow) × World → Worker
take_up p k (ok (some row), w) =
    if row.status == "pending"
    then spawn (record k { world = w }) (envelope_from_row p w.clock row)
    else record k { world = w }
take_up p k (ok none, w) = record k { world = w }
take_up p k (_, w) = record k { world = w }

unfoldable pub take_all : Platform → Worker → List Uuid → Worker
unfolding envelope_from_row
take_all p k [] = k
take_all p k (id ∷ ids) = take_all p (take_up p k (get_task id k.world)) ids

abbrev pub poll_ids : Platform → Worker → Outcome (List Uuid) × World → Worker
poll_ids p k (ok ids, w) =
    take_all p (record k { world = w }) (take (worker_concurrency - k.in_flight) ids)
poll_ids p k (_, w) = record k { world = w }

unfoldable pub poll : Platform → Worker → Worker
unfolding take_all
poll p k = if leb worker_concurrency k.in_flight then k else poll_ids p k (list_pending k.world)

-- A spawned dispatch comes to its end, and its slot is released.
abbrev pub finish : Worker → List TaskEnvelope → Worker
finish k rest = record k { in_flight = k.in_flight - 1; spawned = rest }

-- One step of the worker or of what runs beside it: a poll, any change of the world, the end of one
-- dispatch, or a dispatch that panics, which releases nothing.
pub data Step (p : Platform) : Worker → Worker → Type 0 where
  polls : (k : Worker) → Step p k (poll p k)
  others : (k : Worker) (w : World) → Step p k (record k { world = w })
  ends :
      (k : Worker) (before after : List TaskEnvelope) (e : TaskEnvelope)
      → k.spawned ≡ before ++ (e ∷ after)
      → Step p k (finish k (before ++ after))
  panics :
      (k : Worker) (before after : List TaskEnvelope) (e : TaskEnvelope)
      → k.spawned ≡ before ++ (e ∷ after)
      → Step p k (record k { spawned = before ++ after })

pub data Reach (p : Platform) (k : Worker) : Worker → Type 0 where
  here : Reach p k k
  next : {l m : Worker} → Reach p k l → Step p l m → Reach p k m

abbrev pub started : World → Worker
started w = record { world = w; in_flight = 0; spawned = [] }
