-- ===== src/Bus/Dispatch/Frame.antt =====
-- A dispatch keeps what every operation on its task keeps; so it leaves the other tasks alone.
use open_mamba.Base.{ℕ, ℤ, ◌≡◌, refl, String, Option, none, some}
use text.Mathlib.Text.{starts_with}
use open_mamba.Types.{F64, TaskEnvelope, BillingRecord}
use open_mamba.Platform.{Reply, reply, error, HttpResponse, transport_error, response}
use open_mamba.Nemotron.{NemotronAdapter, from_model_str, GenerateResponse, generate}
use open_mamba.Lake.Tables.{Db}
use open_mamba.Lake.Exec.{World, attempt}
use open_mamba.Lake.Keeps.{
  Keeps, keeps_rules, Keeps-bind, Keeps-attempt, Keeps-pure, Keeps-fail, Keeps-if,
}
use open_mamba.Lake.Store.Frame.{
  IsFrame, others, Others-IsFrame, update_status-Keeps, complete_envelope-Keeps,
  save_response-Keeps, record_dispatch_failure-Keeps, insert_billing-Keeps,
}
use open_mamba.Bus.Errors.{is_transient_error}
use open_mamba.Bus.Billing.{process, bill}
use open_mamba.Bus.Openfang.{DispatchResult, resolve_agent_id, dispatch}
use open_mamba.Bus.Dispatch.{
  Bus, settle, keep_bill, give_up, max_retries, finish_openfang, run_openfang, dispatch_openfang,
  finish_nemotron, dispatch_nemotron, finish_forward, dispatch_http_forward, forward_prefix,
  forward_url, forward_body, route_to, route, adapter_system_prompt,
}

module _ (b : Bus) (e : TaskEnvelope) {P : Db → Type 0} (frame : IsFrame e.id P) where
  process-Keeps :
      (tokens_in tokens_out : ℤ) (cost : F64)
      → Keeps P (process b.platform b.anchor e tokens_in tokens_out cost)
  unfolding process
  process-Keeps tokens_in tokens_out cost =
      sealed (b.platform.encrypt (b.platform.envelope_to_json e))
    where
      sealed :
          (log : Reply String) → Keeps P (bill b.platform b.anchor e tokens_in tokens_out cost log)
      sealed (error m) = Keeps-fail m
      sealed (reply log) = search keeps_rules

  keep_bill-Keeps : (r : Option BillingRecord) → Keeps P (keep_bill r)
  keep_bill-Keeps none = Keeps-pure tt
  keep_bill-Keeps (some r) =
      Keeps-bind (attempt _) _ (Keeps-attempt _ (insert_billing-Keeps e.id frame r))
        λ u. Keeps-pure tt

  settle-Keeps :
      (text : String) (tokens_in tokens_out : ℤ) (cost : F64)
      → Keeps P (settle b e text tokens_in tokens_out cost)
  settle-Keeps text tokens_in tokens_out cost =
      Keeps-bind (attempt _) _ (Keeps-attempt _ (save_response-Keeps e.id frame text)) λ u.
        Keeps-bind _ _ (complete_envelope-Keeps e.id frame tokens_in tokens_out cost none) λ v.
          Keeps-bind (attempt _) _ (Keeps-attempt _ (process-Keeps tokens_in tokens_out cost))
            keep_bill-Keeps

  give_up-Keeps : (backoff : ℕ) (msg : String) → Keeps P (give_up b e backoff msg)
  give_up-Keeps backoff msg =
      Keeps-bind (attempt _) _
        (Keeps-attempt _ (
          record_dispatch_failure-Keeps e.id frame (is_transient_error b.platform msg) max_retries
            _))
        λ u. Keeps-fail msg

  dispatch_openfang-Keeps : Keeps P (dispatch_openfang b e)
  unfolding dispatch_openfang
  dispatch_openfang-Keeps = resolved (resolve_agent_id b.openfang e.assigned_agent)
    where
      finished : (r : Reply DispatchResult) → Keeps P (finish_openfang b e r)
      finished (reply r) = settle-Keeps r.response r.input_tokens r.output_tokens r.cost_usd
      finished (error msg) = give_up-Keeps 30 msg

      resolved : (r : Reply String) → Keeps P (run_openfang b e r)
      resolved (error msg) = Keeps-fail msg
      resolved (reply agent) =
          Keeps-bind _ _ (update_status-Keeps e.id frame none)
            λ u. finished (dispatch b.platform b.openfang e agent)

  dispatch_nemotron-Keeps : (adapter : NemotronAdapter) → Keeps P (dispatch_nemotron b e adapter)
  unfolding dispatch_nemotron
  dispatch_nemotron-Keeps adapter = Keeps-bind _ _ (update_status-Keeps e.id frame none) λ u.
      finished (
        generate b.platform b.nemotron adapter e.payload (adapter_system_prompt adapter) (some 512))
    where
      finished : (r : Reply GenerateResponse) → Keeps P (finish_nemotron b e adapter r)
      finished (reply r) = settle-Keeps r.response _ _ _
      finished (error msg) = give_up-Keeps 60 msg

  dispatch_http_forward-Keeps : (url : String) → Keeps P (dispatch_http_forward b e url)
  unfolding dispatch_http_forward
  dispatch_http_forward-Keeps url =
      Keeps-bind _ _ (update_status-Keeps e.id frame none)
        λ u. finished (b.forward url (forward_body e (b.platform.json_from_str e.payload)))
    where
      finished : (r : HttpResponse) → Keeps P (finish_forward b e r)
      finished (response status body) = complete_envelope-Keeps e.id frame _ _ _ _
      finished (transport_error msg) =
          Keeps-bind _ _
            (record_dispatch_failure-Keeps e.id frame (is_transient_error b.platform msg)
              max_retries _)
            λ u. Keeps-if (is_transient_error b.platform msg) _ _ (Keeps-pure tt) (Keeps-fail _)

  pub route-Keeps : Keeps P (route b e)
  unfolding route
  route-Keeps = routed (from_model_str b.platform e.model)
    where
      routed : (a : Option NemotronAdapter) → Keeps P (route_to b e a)
      routed (some adapter) = dispatch_nemotron-Keeps adapter
      routed none =
          Keeps-if (starts_with e.model forward_prefix) _ _
            (dispatch_http_forward-Keeps (forward_url e.model)) dispatch_openfang-Keeps

-- The dispatch of a task, by any of the three ways, whatever the provider answers and whatever SQL
-- statements fail, leaves the rows of all other tasks as they were, in their order.
pub route-others :
    (b : Bus) (e : TaskEnvelope) (w : World)
    → others e.id (route b e w).1.db.task_envelopes ≡ others e.id w.db.task_envelopes
route-others b e w =
    (route-Keeps b e (Others-IsFrame e.id (others e.id w.db.task_envelopes))).at w refl
