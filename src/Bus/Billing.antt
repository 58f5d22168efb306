-- ===== src/Bus/Billing.antt =====
-- crates/mamba-bus/src/billing_worker.rs: the billing record of a finished task.
use open_mamba.Base.{ℤ, String, Option, none}
use open_mamba.Types.{F64, DateTime, Uuid, TaskEnvelope, BillingEvent, BillingRecord}
use open_mamba.Platform.{Platform, Reply, reply, error}
use open_mamba.Chain.{ChainAnchor, anchor}
use open_mamba.Lake.Exec.{Exec, pure, fail, now, new_v4, ◌>>=◌}

unfoldable pub billing_event : Platform → TaskEnvelope → ℤ → ℤ → F64 → String → BillingEvent
billing_event p e tokens_in tokens_out cost log = record {
  task_id = e.id;
  project = e.project;
  agent_slug = e.assigned_agent;
  model = e.model;
  tokens_in = tokens_in;
  tokens_out = tokens_out;
  cost_usd = cost;
  payload_hash = p.sha256_hex (p.envelope_to_json e);
  encrypted_log = log;
}

abbrev pub record_of : BillingEvent → Option String → Uuid → DateTime → BillingRecord
record_of v tx id t = record {
  id = id;
  task_id = v.task_id;
  project = v.project;
  agent_slug = v.agent_slug;
  model = v.model;
  tokens_in = v.tokens_in;
  tokens_out = v.tokens_out;
  cost_usd = v.cost_usd;
  encrypted_log = v.encrypted_log;
  chain_tx = tx;
  chain_block = none;
  created_at = t;
}

abbrev pub bill :
    Platform → ChainAnchor → TaskEnvelope → ℤ → ℤ → F64 → Reply String → Exec BillingRecord
bill p a e tokens_in tokens_out cost (error m) = fail m
bill p a e tokens_in tokens_out cost (reply log) = do
  id ← new_v4
  t ← now
  let v = billing_event p e tokens_in tokens_out cost log
  pure (record_of v (anchor p a v) id t)

unfoldable pub process : Platform → ChainAnchor → TaskEnvelope → ℤ → ℤ → F64 → Exec BillingRecord
unfolding billing_event anchor
process p a e tokens_in tokens_out cost =
    bill p a e tokens_in tokens_out cost (p.encrypt (p.envelope_to_json e))
