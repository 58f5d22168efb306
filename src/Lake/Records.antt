-- ===== src/Lake/Records.antt =====
-- crates/mamba-lake/src/store.rs: billing records, chain logs, solver outcomes and skip-rules.
pub mod Rules
use open_mamba.Base.{
  ℕ, String, false, ◌&&◌, some, List, [], ◌∷◌, ◌++◌, ◌==◌, leb, eqb, select, update, sort_by, take,
  length, any, ℤ,
}
use open_mamba.Types.{Uuid, DateTime, BillingRecord, ChainLog, kind_as_str}
use open_mamba.Lake.Tables.{ChainLogRecord, SolverOutcomeRow, SolverSkipRuleRow, Db}
use open_mamba.Lake.Exec.{
  limited, Exec, pure, now, query, execute, insert_unique, with_conn, ◌>>=◌, ◌>>◌,
}

abbrev pub on_billing : (List BillingRecord → List BillingRecord) → Db → Db
on_billing f d = record d { billing_records = f d.billing_records }

unfoldable pub insert_billing : BillingRecord → Exec Unit
insert_billing b = with_conn (
    insert_unique (λ d. any (λ (r : BillingRecord). eqb r.id b.id) d.billing_records)
      (on_billing λ rows. rows ++ b ∷ []))

unfoldable pub update_billing_tx : Uuid → String → ℕ → Exec Unit
update_billing_tx id tx block = with_conn (
    execute (
      on_billing
        (update (λ r. eqb r.id id) λ r. record r { chain_tx = some tx; chain_block = some block })))

unfoldable pub insert_outcome : SolverOutcomeRow → Exec Unit
insert_outcome o =
    with_conn (execute λ d. record d { solver_outcomes = d.solver_outcomes ++ o ∷ [] })

unfoldable pub count_outcomes : Exec ℕ
count_outcomes = with_conn (query λ d. length d.solver_outcomes)

unfoldable pub recent_outcomes : ℤ → Exec (List SolverOutcomeRow)
recent_outcomes limit = with_conn (
    limited limit λ limit. query λ d. take limit (sort_by (λ a b. leb b.ts a.ts) d.solver_outcomes))

abbrev pub on_rules : (List SolverSkipRuleRow → List SolverSkipRuleRow) → Db → Db
on_rules f d = record d { solver_skip_rules = f d.solver_skip_rules }

-- INSERT INTO solver_skip_rules, whose primary key is `id`.
abbrev pub add_rule : SolverSkipRuleRow → Exec Unit
add_rule r =
    insert_unique (λ d. any (λ (s : SolverSkipRuleRow). eqb s.id r.id) d.solver_skip_rules)
      (on_rules λ rows. rows ++ r ∷ [])

unfoldable pub insert_skip_rule : SolverSkipRuleRow → Exec Unit
insert_skip_rule r = with_conn (add_rule r)

abbrev pub active_rules : List SolverSkipRuleRow → List SolverSkipRuleRow
active_rules = select λ r. r.active

unfoldable pub list_active_skip_rules : Exec (List SolverSkipRuleRow)
list_active_skip_rules =
    with_conn
      (query λ d. sort_by (λ a b. leb b.created_at a.created_at) (active_rules d.solver_skip_rules))

unfoldable pub supersede : String → DateTime → List SolverSkipRuleRow → List SolverSkipRuleRow
supersede protocol t =
    update (λ r. r.protocol == protocol && r.active)
      λ r. record r { active = false; superseded_at = some t }

unfoldable pub add_rules : List SolverSkipRuleRow → Exec Unit
add_rules [] = pure tt
add_rules (r ∷ rules) = add_rule r >> add_rules rules

unfoldable pub replace_skip_rules : String → List SolverSkipRuleRow → Exec ℕ
unfolding supersede add_rules
replace_skip_rules protocol rules =
    with_conn
      do t ← now; execute (on_rules (supersede protocol t)); add_rules rules; pure (length rules)

unfoldable pub insert_chain_log : ChainLog → Exec Unit
insert_chain_log log = with_conn (
    insert_unique (λ d. any (λ (r : ChainLogRecord). eqb r.id log.id) d.chain_logs)
      λ d. record d { chain_logs = d.chain_logs ++ row ∷ [] })
  where
    row : ChainLogRecord
    row = record {
      id = log.id;
      kind = kind_as_str log.kind;
      task_id = log.task_id;
      payload_hash = log.payload_hash;
      tx_hash = log.tx_hash;
      block_number = log.block_number;
      chain_id = log.chain_id;
      submitted_at = log.submitted_at;
      confirmed_at = log.confirmed_at;
    }
