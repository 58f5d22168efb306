-- ===== src/Bus/Webhook.antt =====
-- crates/mamba-bus/src/webhook.rs: the completion webhook. It logs, and changes nothing.
use open_mamba.Base.{ℕ, ℤ, String, Option}
use open_mamba.Types.{Uuid, F64}
use open_mamba.Lake.Exec.{Exec, pure}

pub record CompletionWebhook : Type 0 where
  pub job_id : Uuid
  pub agent_id : String
  pub exit_code : ℤ
  pub tokens_in : Option ℤ
  pub tokens_out : Option ℤ
  pub cost_usd : Option F64

-- The status of the answer.
unfoldable pub handle_completion : CompletionWebhook → Exec ℕ
handle_completion payload = pure 200
