-- ===== src/Api/Worker/Delivery.antt =====
-- The whole way of a task: submitted, taken up by the worker, dispatched to an agent that answers, and read.
use open_mamba.Base.{
  ℕ, suc, ◌≡◌, refl, ap, ◌∙◌, String, true, false, none, some, [], ◌∷◌, ◌++◌, leb, any, eqb,
  eqb_refl, select, update, select-append, select-concat, update-concat, update_absent, ℤ,
}
use text.Mathlib.Text.{starts_with}
use open_mamba.Types.{Uuid, DateTime, TaskEnvelope, BillingRecord, F64, pending, status_as_str}
use open_mamba.Platform.{Platform, reply}
use open_mamba.Lake.Tables.{Db}
use open_mamba.Lake.Exec.{ok, ready}
use open_mamba.Lake.Store.{
  get_response, insert_envelope, envelope_row, is_due, pending_ids, list_pending,
}
use open_mamba.Lake.Store.Rows.{has_id, on_tasks}
use open_mamba.Nemotron.{from_model_str}
use open_mamba.Bus.Openfang.{DispatchResult, resolve_agent_id, dispatch}
use open_mamba.Bus.Dispatch.{Bus, submit, route, forward_prefix}
use open_mamba.Bus.Dispatch.Settling.{answered_row, settled}
use open_mamba.Bus.Dispatch.Turn.{dispatch_openfang-process}
use open_mamba.Api.Worker.{Worker, poll, started}
use open_mamba.Api.Worker.Handover.{requeued, find_task-append, get_task-submit}
use open_mamba.Api.Worker.Twice.{poll_due}

poll_idle :
    (p : Platform) (d : Db) (t : DateTime) (ids : ℕ → Uuid)
    → pending_ids t d.task_envelopes ≡ []
    → (poll p (started (ready d t ids))).spawned ≡ []
unfolding poll list_pending
poll_idle p d t ids idle = rw idle refl

-- The worker on the new row alone.
module _ (e : TaskEnvelope) (d : Db) (t : DateTime) (ids : ℕ → Uuid) where
  abbrev stored : Db
  stored = on_tasks (λ rows. rows ++ envelope_row e ∷ []) d

  submit-stored : leb e.priority 127 ≡ true → submit e (ready d t ids) ≡ (ok tt, ready stored t ids)
  unfolding submit insert_envelope
  submit-stored fits = rw fits refl

  pending_ids-stored :
      e.status ≡ pending
      → select (is_due t) d.task_envelopes ≡ []
      → pending_ids t stored.task_envelopes ≡ e.id ∷ []
  unfolding pending_ids envelope_row status_as_str
  pending_ids-stored waiting idle =
      rw (select-concat (is_due t) d.task_envelopes (envelope_row e ∷ []), idle, waiting) refl

  poll-stored :
      (p : Platform)
      → e.status ≡ pending
      → leb e.priority 127 ≡ true
      → any (has_id e.id) d.task_envelopes ≡ false
      → select (is_due t) d.task_envelopes ≡ []
      → (poll p (started (ready stored t ids))).spawned ≡ requeued p t e ∷ []
  unfolding envelope_row status_as_str
  poll-stored p waiting fits fresh idle =
      ap (λ (k : Worker). k.spawned)
        (poll_due p stored t ids e.id (envelope_row e) 0 [] (pending_ids-stored waiting idle)
          (find_task-append (envelope_row e) d.task_envelopes fresh) (rw waiting refl) refl refl)
      ∙ ap (λ e. e ∷ []) (get_task-submit p e d t ids fits fresh).1

  -- The table once the row is answered.
  answered_rows :
      (text : String) (tokens_in tokens_out : ℤ) (cost : F64)
      → any (has_id e.id) d.task_envelopes ≡ false
      → update (has_id e.id) (answered_row t text tokens_in tokens_out cost) stored.task_envelopes
        ≡ d.task_envelopes ++ answered_row t text tokens_in tokens_out cost (envelope_row e) ∷ []
  unfolding envelope_row
  answered_rows text tokens_in tokens_out cost fresh =
      rw
        (
          update-concat (has_id e.id) (answered_row t text tokens_in tokens_out cost)
              d.task_envelopes (envelope_row e ∷ []),
          update_absent (has_id e.id) (answered_row t text tokens_in tokens_out cost)
              d.task_envelopes fresh,
          eqb_refl e.id,
        )
        refl

  pending_ids-answered :
      (text : String) (tokens_in tokens_out : ℤ) (cost : F64)
      → any (has_id e.id) d.task_envelopes ≡ false
      → select (is_due t) d.task_envelopes ≡ []
      → pending_ids t (
          update
            (has_id e.id)
            (answered_row t text tokens_in tokens_out cost)
            stored.task_envelopes)
        ≡ []
  unfolding pending_ids
  pending_ids-answered text tokens_in tokens_out cost fresh idle =
      rw
        (
          answered_rows text tokens_in tokens_out cost fresh,
          select-append (is_due t) d.task_envelopes
              (answered_row t text tokens_in tokens_out cost (envelope_row e)) refl,
          idle,
        )
        refl

  routed :
      (b : Bus) (agent log : String) (a : DispatchResult)
      → from_model_str b.platform e.model ≡ none
      → starts_with e.model forward_prefix ≡ false
      → resolve_agent_id b.openfang e.assigned_agent ≡ reply agent
      → dispatch b.platform b.openfang (requeued b.platform t e) agent ≡ reply a
      → b.platform.encrypt (b.platform.envelope_to_json (requeued b.platform t e)) ≡ reply log
      → any (λ (r : BillingRecord). eqb r.id (ids 0)) d.billing_records ≡ false
      → route b (requeued b.platform t e) (ready stored t ids) ≡ (
        ok tt,
        ready
            (settled b
              (requeued b.platform t e)
              stored
              t
              ids
              log
              a.response
              a.input_tokens
              a.output_tokens
              a.cost_usd)
            t
            (λ n. ids (suc n)),
      )
  unfolding route
  routed b agent log a to_agent no_url resolved answer sealed unbilled =
      rw (to_agent, no_url)
        (dispatch_openfang-process b (requeued b.platform t e) agent log a stored t ids resolved
          answer sealed unbilled)

-- Let no statement of the database fail, and no task be due. A pending task of priority 127 at most under a
-- new id, for an agent and not for the provider or a URL, is submitted: then a worker just started takes up
-- just that task, whose time of creation is now what the text of it parses to, or else the time of the poll.
-- Let the agent be found and answer, and the log be encrypted under a fresh id of the bill:
-- once the dispatch has ended, the answer is what is read back for the task, and a worker takes up nothing.
pub submit-get_response :
    (b : Bus) (e : TaskEnvelope) (agent log : String) (a : DispatchResult) (d : Db) (t : DateTime)
    (ids : ℕ → Uuid)
    → e.status ≡ pending
    → leb e.priority 127 ≡ true
    → any (has_id e.id) d.task_envelopes ≡ false
    → select (is_due t) d.task_envelopes ≡ []
    → from_model_str b.platform e.model ≡ none
    → starts_with e.model forward_prefix ≡ false
    → resolve_agent_id b.openfang e.assigned_agent ≡ reply agent
    → dispatch b.platform b.openfang (requeued b.platform t e) agent ≡ reply a
    → b.platform.encrypt (b.platform.envelope_to_json (requeued b.platform t e)) ≡ reply log
    → any (λ (r : BillingRecord). eqb r.id (ids 0)) d.billing_records ≡ false
    → let w = (submit e (ready d t ids)).1 in
      let w' = (route b (requeued b.platform t e) w).1 in
      ((poll b.platform (started w)).spawned ≡ requeued b.platform t e ∷ [])
      × ((get_response e.id w').0 ≡ ok (some a.response))
      × ((poll b.platform (started w')).spawned ≡ [])
unfolding get_response envelope_row
submit-get_response b e agent log a d t ids waiting fits fresh idle to_agent no_url resolved answer
      sealed unbilled =
    rw
      (
        submit-stored e d t ids fits,
        routed e d t ids b agent log a to_agent no_url resolved answer sealed unbilled,
      )
      (
        poll-stored e d t ids b.platform waiting fits fresh idle,
        rw
            (
              answered_rows e d t ids a.response a.input_tokens a.output_tokens a.cost_usd fresh,
              find_task-append
                  (answered_row t a.response a.input_tokens a.output_tokens a.cost_usd
                    (envelope_row e))
                  d.task_envelopes fresh,
            )
            refl,
        poll_idle b.platform
            (settled b (requeued b.platform t e) (stored e d t ids) t ids log a.response
              a.input_tokens a.output_tokens a.cost_usd)
            t (λ n. ids (suc n))
            (pending_ids-answered e d t ids a.response a.input_tokens a.output_tokens a.cost_usd
              fresh idle),
      )
