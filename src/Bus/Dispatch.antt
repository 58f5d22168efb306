-- ===== src/Bus/Dispatch.antt =====
-- crates/mamba-bus/src/dispatch.rs: the bus. What the providers answer to a dispatch is fixed by
-- the clients that it holds. The database calls keep their order, and `?` leaves at the first error.
pub mod Openfang
pub mod Nemotron
pub mod Forward
pub mod Turn
pub mod Url
pub mod Frame
pub mod Settling
pub mod Provider
use open_mamba.Base.{
  ℕ, zero, suc, ℤ, pos, String, Bool, true, false, Option, none, some, len, unwrap_or, as_i64,
  contains, is_some, not, if◌then◌else◌,
}
use Prim.Native.String.{slice}
use text.Mathlib.Text.{starts_with}
use open_mamba.Types.{TaskEnvelope, running, F64, f64_zero, BillingRecord}
use open_mamba.Types.Json.{Json, str, obj, field, end}
use open_mamba.Platform.{
  Platform, Reply, reply, error, HttpResponse, transport_error, response, ◌⧺◌,
}
use open_mamba.Nemotron.{
  NemotronAdapter, taifoon, polymarket, algotrada, general, slug, from_model_str, NemotronClient,
  GenerateResponse, generate,
}
use open_mamba.Chain.{ChainAnchor}
use open_mamba.Bus.Errors.{is_transient_error}
use open_mamba.Bus.Openfang.{OpenfangClient, DispatchResult, resolve_agent_id, dispatch}
use open_mamba.Bus.Billing.{process}
use open_mamba.Lake.Exec.{Exec, pure, fail, attempt, ◌>>=◌, ◌>>◌}
use open_mamba.Lake.Store.{insert_envelope, update_status, complete_envelope, save_response}
use open_mamba.Lake.Store.Reset.{record_dispatch_failure}
use open_mamba.Lake.Records.{insert_billing}

pub record Bus : Type 0 where
  pub platform : Platform
  pub openfang : OpenfangClient
  pub nemotron : NemotronClient
  pub anchor : ChainAnchor
  -- The POST of a JSON body to the URL of an http-forward task.
  pub forward : String → Json → HttpResponse

unfoldable pub submit : TaskEnvelope → Exec Unit
submit e = insert_envelope e

-- `if let Ok(record) = … { let _ = self.lake.insert_billing(&record); }`
abbrev pub keep_bill : Option BillingRecord → Exec Unit
keep_bill none = pure tt
keep_bill (some b) = attempt (insert_billing b) >> pure tt

-- What follows a finished turn: the response (best effort), the completion, and the bill.
abbrev pub settle : Bus → TaskEnvelope → String → ℤ → ℤ → F64 → Exec Unit
settle b e text tokens_in tokens_out cost = do
  attempt (save_response e.id text)
  complete_envelope e.id tokens_in tokens_out cost none
  bill ← attempt (process b.platform b.anchor e tokens_in tokens_out cost)
  keep_bill bill

abbrev pub max_retries : ℕ
max_retries = 2

-- A failed turn: the row is put back or failed, and the error is returned whatever that gives.
abbrev pub give_up : Bus → TaskEnvelope → ℕ → String → Exec Unit
give_up b e backoff msg = do
  let transient = is_transient_error b.platform msg
  attempt (record_dispatch_failure e.id transient max_retries (if transient then backoff else 0))
  fail msg

abbrev pub finish_openfang : Bus → TaskEnvelope → Reply DispatchResult → Exec Unit
finish_openfang b e (reply r) = settle b e r.response r.input_tokens r.output_tokens r.cost_usd
finish_openfang b e (error msg) = give_up b e 30 msg

-- From the moment that the agent is known.
abbrev pub run_openfang : Bus → TaskEnvelope → Reply String → Exec Unit
run_openfang b e (error msg) = fail msg
run_openfang b e (reply agent) = do
  update_status e.id running none
  finish_openfang b e (dispatch b.platform b.openfang e agent)

-- An agent that cannot be resolved ends the dispatch before the row is touched.
unfoldable pub dispatch_openfang : Bus → TaskEnvelope → Exec Unit
unfolding resolve_agent_id dispatch is_transient_error process
dispatch_openfang b e = run_openfang b e (resolve_agent_id b.openfang e.assigned_agent)

unfoldable pub adapter_system_prompt : NemotronAdapter → Option String
adapter_system_prompt taifoon =
    some "You are Taifoon Intel — protocol routing, V5 finality, solver economics."
adapter_system_prompt polymarket =
    some "You are Nemotron-Enhanced — 15-minute crypto price predictions on Polymarket."
adapter_system_prompt algotrada =
    some
      "You are AlgoTrada Brain, an elite institutional trading system. Analyze market setups using DNA patterns, SMT divergence, Power of 3, and Goldbach zones. Output trading decisions as JSON."
adapter_system_prompt general = none

-- The rates of a model, in tenths of a dollar for a million tokens.
abbrev pub rates : String → ℕ × ℕ
rates model =
    if contains model "sonnet"
    then (30, 150)
    else if contains model "opus"
    then (150, 750)
    else if contains model "haiku"
    then (8, 40)
    else (30, 150)

unfoldable pub estimate_cost_usd : Platform → ℤ → ℤ → String → F64
unfolding from_model_str
estimate_cost_usd p tokens_in tokens_out model =
    if is_some (from_model_str p model)
    then f64_zero
    else p.cost_at (rates model) tokens_in tokens_out

abbrev pub finish_nemotron :
    Bus → TaskEnvelope → NemotronAdapter → Reply GenerateResponse → Exec Unit
finish_nemotron b e adapter (reply r) =
    settle b e r.response (pos 0) (pos r.tokens)
      (estimate_cost_usd b.platform (pos 0) (pos r.tokens) (slug adapter))
finish_nemotron b e adapter (error msg) = give_up b e 60 msg

unfoldable pub dispatch_nemotron : Bus → TaskEnvelope → NemotronAdapter → Exec Unit
unfolding generate estimate_cost_usd adapter_system_prompt is_transient_error process
dispatch_nemotron b e adapter = do
  update_status e.id running none
  finish_nemotron b e adapter
      (generate b.platform b.nemotron adapter e.payload (adapter_system_prompt adapter) (some 512))

-- The payload as JSON, or wrapped if it is none.
abbrev pub forward_body : TaskEnvelope → Option Json → Json
forward_body e (some j) = j
forward_body e none = obj (field "payload" (str e.payload) end)

-- Any answer completes the task, whatever its status; the body goes into `chain_tx`.
abbrev pub finish_forward : Bus → TaskEnvelope → HttpResponse → Exec Unit
finish_forward b e (response status body) =
    complete_envelope e.id (pos 0) (pos 0) f64_zero (some body)
finish_forward b e (transport_error msg) = do
  let transient = is_transient_error b.platform msg
  record_dispatch_failure e.id transient max_retries (if transient then 60 else 0)
  if transient then pure tt else fail ("http-forward permanent failure: " ⧺ msg)

unfoldable pub dispatch_http_forward : Bus → TaskEnvelope → String → Exec Unit
unfolding is_transient_error
dispatch_http_forward b e url = do
  update_status e.id running none
  finish_forward b e (b.forward url (forward_body e (b.platform.json_from_str e.payload)))

abbrev pub forward_prefix : String
forward_prefix = "http-forward:"

-- `trim_start_matches`: every copy of the prefix goes; a text of `n` bytes has at most `n`.
unfoldable pub trim_prefix : ℕ → String → String
trim_prefix zero s = s
trim_prefix (suc n) s =
    let rest = trim_prefix n (slice s (len forward_prefix) (len s)) in
    if starts_with s forward_prefix then rest else s

unfoldable pub forward_url : String → String
unfolding trim_prefix
forward_url model = trim_prefix (len model) model

abbrev pub route_to : Bus → TaskEnvelope → Option NemotronAdapter → Exec Unit
route_to b e (some adapter) = dispatch_nemotron b e adapter
route_to b e none =
    if starts_with e.model forward_prefix
    then dispatch_http_forward b e (forward_url e.model)
    else dispatch_openfang b e

unfoldable pub route : Bus → TaskEnvelope → Exec Unit
unfolding from_model_str
route b e = route_to b e (from_model_str b.platform e.model)

-- What the worker runs for each task that it takes up.
unfoldable pub route_blocking : Bus → TaskEnvelope → Exec Unit
unfolding route
route_blocking b e = route b e

-- The task that `redispatch` spawns: the caller does not wait for it, and its error is only logged.
unfoldable pub redispatch : Bus → TaskEnvelope → Exec Unit
unfolding route
redispatch b e = attempt (route b e) >> pure tt
