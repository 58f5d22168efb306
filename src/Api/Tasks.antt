-- ===== src/Api/Tasks.antt =====
-- crates/mamba-api/src/routes.rs: the handlers over tasks, consumption, solver outcomes and rules.
pub mod Retry
use open_mamba.Base.{
  ℕ, suc, zero, min, String, true, Option, none, some, List, [], ◌∷◌, unwrap_or, ℤ, pos, negsuc,
}
use open_mamba.Types.{Uuid, DateTime, F64}
use open_mamba.Platform.{Platform, Reply, reply, error}
use open_mamba.Nemotron.{
  NemotronAdapter, NemotronClient, GenerateResponse, generate, from_model_str,
}
use open_mamba.Lake.Tables.{TaskRow, SolverOutcomeRow, SolverSkipRuleRow}
use open_mamba.Lake.Exec.{Exec, pure, now, new_v4, ◌>>=◌}
use open_mamba.Lake.Store.{get_task as lake_task, query_tasks}
use open_mamba.Lake.Store.Reset.{reset_to_pending, reset_stuck_tasks}
use open_mamba.Lake.Records.{
  insert_outcome, recent_outcomes, count_outcomes, list_active_skip_rules, replace_skip_rules,
}
use open_mamba.Api.Answer.{Answer, answer, refused, lake_response, or_500}

pub record ListQuery : Type 0 where
  pub project : Option String
  pub status : Option String
  pub limit : Option ℤ

unfoldable pub list_tasks : ListQuery → Exec (Answer (List TaskRow))
list_tasks q = lake_response (query_tasks q.project q.status (unwrap_or q.limit (pos 100)))

abbrev pub one_or_404 : {A : Type 0} → Option A → Exec (Answer A)
one_or_404 none = pure (refused 404 "not found")
one_or_404 (some a) = pure (answer 200 a)

unfoldable pub get_task : Uuid → Exec (Answer TaskRow)
get_task id = or_500 (lake_task id) one_or_404

abbrev pub reset_answer : Uuid → ℕ → Exec (Answer Uuid)
reset_answer id zero = pure (refused 404 "not found")
reset_answer id (suc n) = pure (answer 202 id)

unfoldable pub retry_task : Uuid → Exec (Answer Uuid)
unfolding reset_to_pending
retry_task id = or_500 (reset_to_pending (id ∷ [])) (reset_answer id)

unfoldable pub retry_pending : Exec (Answer ℕ)
unfolding reset_stuck_tasks
retry_pending = or_500 reset_stuck_tasks λ n. pure (answer 202 n)

abbrev pub generated : Reply GenerateResponse → Answer GenerateResponse
generated (reply r) = answer 200 r
generated (error e) = refused 502 e

pub record GenerateBody : Type 0 where
  pub prompt : String
  pub max_tokens : Option ℕ
  pub system : Option String

abbrev pub generate_with :
    Platform → NemotronClient → GenerateBody → Option NemotronAdapter → Answer GenerateResponse
generate_with p c body none = refused 400 "unknown model"
generate_with p c body (some adapter) =
    generated (generate p c adapter body.prompt body.system body.max_tokens)

unfoldable pub nemotron_generate :
    Platform → NemotronClient → String → GenerateBody → Answer GenerateResponse
unfolding generate from_model_str
nemotron_generate p c model body = generate_with p c body (from_model_str p model)

-- A body without `ts` has the time of its arrival; `gas_used` is another name of `actual_gas`.
pub record OutcomeIngest : Type 0 where
  pub ts : Option DateTime
  pub intent_id : String
  pub protocol : String
  pub src_chain : ℕ
  pub dst_chain : ℕ
  pub decision : String
  pub tx_hash : Option String
  pub predicted_gas : Option ℕ
  pub actual_gas : Option ℕ
  pub effective_gas_price_wei : Option String
  pub predicted_profit_usd : Option F64
  pub actual_profit_usd : Option F64
  pub skip_reason : Option String
  pub error : Option String

abbrev pub outcome_row : DateTime → OutcomeIngest → SolverOutcomeRow
outcome_row default_now req = record {
  ts = unwrap_or req.ts default_now;
  intent_id = req.intent_id;
  protocol = req.protocol;
  src_chain = req.src_chain;
  dst_chain = req.dst_chain;
  decision = req.decision;
  tx_hash = req.tx_hash;
  predicted_gas = req.predicted_gas;
  actual_gas = req.actual_gas;
  effective_gas_price_wei = req.effective_gas_price_wei;
  predicted_profit_usd = req.predicted_profit_usd;
  actual_profit_usd = req.actual_profit_usd;
  skip_reason = req.skip_reason;
  error = req.error;
}

unfoldable pub ingest_outcome : OutcomeIngest → Exec (Answer (Unit {0}))
ingest_outcome req = do
  t ← now
  or_500 (insert_outcome (outcome_row t req)) λ _. pure (answer 202 tt)

-- `limit.clamp(1, 5000)` of an i64.
abbrev pub clamp_limit : ℤ → ℤ
clamp_limit (pos zero) = pos 1
clamp_limit (pos (suc n)) = pos (min (suc n) 5000)
clamp_limit (negsuc n) = pos 1

unfoldable pub list_outcomes : Option ℤ → Exec (Answer (List SolverOutcomeRow))
list_outcomes limit = lake_response (recent_outcomes (clamp_limit (unwrap_or limit (pos 100))))

unfoldable pub count_outcomes_route : Exec (Answer ℕ)
count_outcomes_route = lake_response count_outcomes

unfoldable pub list_skip_rules : Exec (Answer (List SolverSkipRuleRow))
list_skip_rules = lake_response list_active_skip_rules

pub record SkipRuleInput : Type 0 where
  pub rule_json : String
  pub description : Option String
  pub confidence : F64
  pub sample_size : ℕ

abbrev pub rule_row : String → DateTime → Uuid → SkipRuleInput → SolverSkipRuleRow
rule_row protocol t id r = record {
  id = id;
  protocol = protocol;
  rule_json = r.rule_json;
  description = r.description;
  confidence = r.confidence;
  sample_size = r.sample_size;
  active = true;
  created_at = t;
  superseded_at = none;
}

unfoldable pub rule_rows : String → DateTime → List SkipRuleInput → Exec (List SolverSkipRuleRow)
rule_rows protocol t [] = pure []
rule_rows protocol t (r ∷ rules) = do
  id ← new_v4
  rest ← rule_rows protocol t rules
  pure (rule_row protocol t id r ∷ rest)

pub record PublishSkipRules : Type 0 where
  pub protocol : String
  pub rules : List SkipRuleInput

unfoldable pub publish_skip_rules : PublishSkipRules → Exec (Answer ℕ)
unfolding rule_rows replace_skip_rules
publish_skip_rules req = do
  t ← now
  rows ← rule_rows req.protocol t req.rules
  or_500 (replace_skip_rules req.protocol rows) λ n. pure (answer 202 n)
