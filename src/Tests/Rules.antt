-- ===== src/Tests/Rules.antt =====
-- Skip rules, and the priority of webhooks.
use open_mamba.Base.{◌≡◌, refl, String, true, some, none, [], ◌∷◌, ◌++◌, select}
use open_mamba.Types.{Uuid}
use open_mamba.Types.Json.{null}
use open_mamba.Lake.Tables.{SolverSkipRuleRow, Db, no_rows}
use open_mamba.Lake.Exec.{ok, ready}
use open_mamba.Lake.Records.{on_rules, supersede, replace_skip_rules}
use open_mamba.Lake.Records.Rules.{active_for, replace_skip_rules-supersede}
use open_mamba.Api.Hooks.{WebhookSpec, webhook_of, hook_envelope}
use open_mamba.Api.Hooks.Priority.{hook_envelope-webhook_of}
use open_mamba.Tests.Setting.{platform, uuids}

abbrev rule : Uuid → String → SolverSkipRuleRow
rule id protocol = record {
  id = id;
  protocol = protocol;
  rule_json = "{}";
  description = none;
  confidence = 0;
  sample_size = 3;
  active = true;
  created_at = 5;
  superseded_at = none;
}

abbrev published : Db
published = record no_rows { solver_skip_rules = rule 1 "v5" ∷ rule 2 "lifi" ∷ [] }

replace_skip_rules-supersede_example :
    let after = supersede "v5" 50 (rule 1 "v5" ∷ rule 2 "lifi" ∷ []) ++ rule 3 "v5" ∷ [] in
    (replace_skip_rules "v5" (rule 3 "v5" ∷ []) (ready published 50 uuids)
      ≡ (ok 1, ready (on_rules (λ _. after) published) 50 uuids))
    × (select (active_for "v5") after ≡ rule 3 "v5" ∷ [])
unfolding supersede
replace_skip_rules-supersede_example =
    replace_skip_rules-supersede "v5" (rule 3 "v5" ∷ []) published 50 uuids (refl, tt) (refl, tt)

abbrev spec : WebhookSpec
spec = record {
  hook_id = "push";
  project = "site";
  assigned_agent = "planner";
  skill = none;
  model = none;
  payload_template = "look";
  priority = some 200;
  enabled = true;
}

hook_envelope-webhook_of_example :
    (hook_envelope platform 1 60 (webhook_of 50 spec) null).priority ≡ 0
hook_envelope-webhook_of_example = hook_envelope-webhook_of platform 1 50 60 spec null 200 refl
