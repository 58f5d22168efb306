-- ===== src/Bus/Dispatch/Settling.antt =====
-- What follows a turn, on a lake with no failures: the row that is put back or failed, and the row that is
-- done with its bill. The dispatches to an agent and to the inference provider share both.
use open_mamba.Base.{
  ℕ, suc, ℤ, ◌+◌, ◌≡◌, ◌∙◌, ap, refl, String, false, ◌&&◌, none, some, List, [], ◌∷◌, ◌++◌, any,
  eqb, ltb, update, update-update, first-select-update, if◌then◌else◌,
}
use open_mamba.Types.{
  Uuid, DateTime, F64, seconds, TaskEnvelope, BillingEvent, BillingRecord, status_as_str,
}
use open_mamba.Platform.{reply}
use open_mamba.Chain.{anchor}
use open_mamba.Lake.Tables.{TaskRecord, Db}
use open_mamba.Lake.Exec.{World, ok, err, ready, continue, fail, dropped}
use open_mamba.Lake.Store.{save_response, complete_envelope}
use open_mamba.Lake.Store.Rows.{find_task, has_id, on_tasks}
use open_mamba.Lake.Store.Retry.{after_failure, record_dispatch_failure_lem}
use open_mamba.Lake.Store.Reset.{retry_of}
use open_mamba.Lake.Records.{insert_billing, on_billing}
use open_mamba.Bus.Errors.{is_transient_error}
use open_mamba.Bus.Billing.{process, billing_event}
use open_mamba.Bus.Dispatch.{Bus, settle, give_up}

-- The row as it is when the turn is running.
abbrev pub running_row : DateTime → TaskRecord → TaskRecord
running_row t r = record r { status = "running"; openfang_job_id = none; dispatched_at = some t }

-- The row after the turn has been answered.
abbrev pub answered_row : DateTime → String → ℤ → ℤ → F64 → TaskRecord → TaskRecord
answered_row t text tokens_in tokens_out cost r = record (running_row t r) {
  response = some text;
  status = "done";
  tokens_in = some tokens_in;
  tokens_out = some tokens_out;
  cost_usd = some cost;
  chain_tx = none;
  completed_at = some t;
}

-- The bill of a finished task, written out, and the event that its transaction is made of.
abbrev pub bill_row : Bus → TaskEnvelope → String → ℤ → ℤ → F64 → Uuid → DateTime → BillingRecord
bill_row b e log tokens_in tokens_out cost id t =
    let event : BillingEvent = record {
      task_id = e.id;
      project = e.project;
      agent_slug = e.assigned_agent;
      model = e.model;
      tokens_in = tokens_in;
      tokens_out = tokens_out;
      cost_usd = cost;
      payload_hash = b.platform.sha256_hex (b.platform.envelope_to_json e);
      encrypted_log = log;
    } in
    record {
      id = id;
      task_id = e.id;
      project = e.project;
      agent_slug = e.assigned_agent;
      model = e.model;
      tokens_in = tokens_in;
      tokens_out = tokens_out;
      cost_usd = cost;
      encrypted_log = log;
      chain_tx = anchor b.platform b.anchor event;
      chain_block = none;
      created_at = t;
    }

-- The tasks after a turn that failed with a message, where the row of the task was `r`.
abbrev pub failed_rows :
    Bus → Uuid → ℕ → String → DateTime → TaskRecord → List TaskRecord → List TaskRecord
failed_rows b id backoff msg t r rows =
    let transient = is_transient_error b.platform msg in
    after_failure id (transient && ltb (retry_of (some r)) 2)
      (t + seconds (if transient then backoff else 0)) (running_row t r)
      (update (has_id id) (running_row t) rows)

module _ (b : Bus) (e : TaskEnvelope) (d : Db) (t : DateTime) (ids : ℕ → Uuid) where
  abbrev pub running_world : World
  running_world = ready (on_tasks (update (has_id e.id) (running_row t)) d) t ids

  pub give_up-running :
      (backoff : ℕ) (msg : String) (r : TaskRecord)
      → find_task e.id d.task_envelopes ≡ some r
      → give_up b e backoff msg running_world
        ≡ (err msg, ready (on_tasks (failed_rows b e.id backoff msg t r) d) t ids)
  give_up-running backoff msg r known =
      ap (λ o. continue (dropped o).0 (λ _. fail msg) (dropped o).1)
        (record_dispatch_failure_lem e.id (is_transient_error b.platform msg) 2
          (if is_transient_error b.platform msg then backoff else 0)
          (on_tasks (update (has_id e.id) (running_row t)) d) t ids (running_row t r)
          (first-select-update (has_id e.id) (running_row t) d.task_envelopes r (λ s. refl) known))

  -- The database after an answered turn.
  abbrev pub settled : String → String → ℤ → ℤ → F64 → Db
  settled log text tokens_in tokens_out cost =
      on_billing (λ rows. rows ++ bill_row b e log tokens_in tokens_out cost (ids 0) t ∷ [])
        (on_tasks (update (has_id e.id) (answered_row t text tokens_in tokens_out cost)) d)

  module _ (text : String) (tokens_in tokens_out : ℤ) (cost : F64) where
    answered :
        (rows : List TaskRecord)
        → update
            (has_id e.id)
            (λ r. record r {
              status = "done";
              tokens_in = some tokens_in;
              tokens_out = some tokens_out;
              cost_usd = some cost;
              chain_tx = none;
              completed_at = some t;
            })
            (update
              (has_id e.id)
              (λ r. record r { response = some text })
              (update (has_id e.id) (running_row t) rows))
          ≡ update (has_id e.id) (answered_row t text tokens_in tokens_out cost) rows
    answered rows =
        update-update (has_id e.id) (λ r. record r { response = some text }) _
          (update (has_id e.id) (running_row t) rows) (λ r. refl)
        ∙ update-update (has_id e.id) (running_row t) _ rows (λ r. refl)

    pub settle-running :
        (log : String)
        → b.platform.encrypt (b.platform.envelope_to_json e) ≡ reply log
        → any (λ (r : BillingRecord). eqb r.id (ids 0)) d.billing_records ≡ false
        → settle b e text tokens_in tokens_out cost running_world
          ≡ (ok tt, ready (settled log text tokens_in tokens_out cost) t (λ n. ids (suc n)))
    unfolding save_response complete_envelope process insert_billing status_as_str billing_event
    settle-running log sealed fresh = rw (sealed, fresh, answered d.task_envelopes) refl
