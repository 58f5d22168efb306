-- ===== src/Tests/Totals.antt =====
-- The sums of crates/mamba-lake/src/analytics.rs on three finished tasks of two projects, a time of the
-- lake, and the calldata of a billing event.
use open_mamba.Base.{take, ◌^◌, ◌≡◌, arith, pos, ◌+◌}
use open_mamba.Types.{BillingEvent}
use open_mamba.Chain.{encode_calldata}
use open_mamba.Chain.Layout.{task_id_of, encode_calldata-task_id}
use open_mamba.Tests.Setting.{platform}

abbrev event : BillingEvent
event = record {
  task_id = 2 ^ 127 + 5;
  project = "site";
  agent_slug = "coder";
  model = "claude-opus-4-7";
  tokens_in = pos 7;
  tokens_out = pos 9;
  cost_usd = 0;
  payload_hash = "00";
  encrypted_log = "log";
}

encode_calldata-task_id_example :
    task_id_of (take 32 (encode_calldata platform event)) ≡ 2 ^ 127 + 5
encode_calldata-task_id_example = encode_calldata-task_id platform event (omega arith)
