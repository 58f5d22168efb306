-- ===== src/Bus/Dispatch/Turn.antt =====
-- A dispatch to an agent that answers.
use open_mamba.Base.{ℕ, suc, ◌≡◌, String, false, [], ◌∷◌, ◌++◌, any, eqb, update}
use open_mamba.Types.{Uuid, DateTime, TaskEnvelope, BillingRecord, status_as_str}
use open_mamba.Platform.{reply}
use open_mamba.Lake.Tables.{Db}
use open_mamba.Lake.Exec.{ok, ready}
use open_mamba.Lake.Store.{update_status, save_response, complete_envelope}
use open_mamba.Lake.Store.Rows.{has_id, on_tasks}
use open_mamba.Lake.Records.{insert_billing, on_billing}
use open_mamba.Bus.Openfang.{resolve_agent_id, dispatch, DispatchResult}
use open_mamba.Bus.Billing.{process}
use open_mamba.Bus.Dispatch.{Bus, dispatch_openfang}
use open_mamba.Bus.Dispatch.Settling.{answered_row, bill_row, settle-running}

-- With no database failure, a turn of a resolved agent that is answered succeeds: the task is done
-- with the response, the tokens and the cost of the answer, and one bill with them is kept under a
-- fresh id, if its log can be encrypted.
pub dispatch_openfang-process :
    (b : Bus) (e : TaskEnvelope) (agent log : String) (a : DispatchResult) (d : Db) (t : DateTime)
    (ids : ℕ → Uuid)
    → resolve_agent_id b.openfang e.assigned_agent ≡ reply agent
    → dispatch b.platform b.openfang e agent ≡ reply a
    → b.platform.encrypt (b.platform.envelope_to_json e) ≡ reply log
    → any (λ (r : BillingRecord). eqb r.id (ids 0)) d.billing_records ≡ false
    → let bill = bill_row b e log a.input_tokens a.output_tokens a.cost_usd (ids 0) t in
      dispatch_openfang b e (ready d t ids) ≡ (
        ok tt,
        ready
            (on_billing
              (λ rows. rows ++ bill ∷ [])
              (on_tasks
                (update
                  (has_id e.id)
                  (answered_row t a.response a.input_tokens a.output_tokens a.cost_usd))
                d))
            t
            (λ n. ids (suc n)),
      )
unfolding dispatch_openfang update_status save_response complete_envelope process insert_billing
    status_as_str
dispatch_openfang-process b e agent log a d t ids resolved answer sealed fresh =
    rw (resolved, answer)
      (settle-running b e d t ids a.response a.input_tokens a.output_tokens a.cost_usd log sealed
        fresh)
