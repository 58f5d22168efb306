-- ===== src/Api/Hooks.antt =====
-- crates/mamba-api/src/triggers.rs: the handlers of webhooks and cron schedules.
pub mod Fire
pub mod Priority
use open_mamba.Base.{
  ℕ, zero, suc, String, Bool, Option, none, some, List, as_i8, unwrap_or, if◌then◌else◌,
}
use open_mamba.Types.{Uuid, DateTime, TaskEnvelope, webhook, new_envelope}
use open_mamba.Types.Json.{Json, str, obj, field, end}
use open_mamba.Platform.{Platform, Reply, reply, error, ◌⧺◌}
use open_mamba.Lake.Tables.{Webhook, Schedule}
use open_mamba.Lake.Exec.{Exec, pure, attempt, now, new_v4, ◌>>=◌, ◌>>◌}
use open_mamba.Lake.Triggers.{
  upsert_webhook, get_webhook, note_webhook_fired, upsert_schedule, list_webhooks as lake_webhooks,
  list_schedules as lake_schedules, delete_webhook as lake_delete_webhook,
  delete_schedule as lake_delete_schedule,
}
use open_mamba.Bus.Dispatch.{submit}
use open_mamba.Api.Answer.{Answer, answer, refused, lake_response, or_500}
use open_mamba.Api.Scheduler.{next_after, max_zero}

pub record WebhookSpec : Type 0 where
  pub hook_id : String
  pub project : String
  pub assigned_agent : String
  pub skill : Option String
  pub model : Option String
  pub payload_template : String
  pub priority : Option ℕ
  pub enabled : Bool

unfoldable pub webhook_of : DateTime → WebhookSpec → Webhook
webhook_of t req = record {
  hook_id = req.hook_id;
  project = req.project;
  assigned_agent = req.assigned_agent;
  skill = req.skill;
  model = unwrap_or req.model "nemotron/taifoon";
  payload_template = req.payload_template;
  priority = as_i8 (unwrap_or req.priority 5);
  enabled = req.enabled;
  created_at = t;
  last_fired_at = none;
  fire_count = 0;
}

unfoldable pub create_webhook : WebhookSpec → Exec (Answer String)
unfolding webhook_of
create_webhook req = do
  t ← now
  or_500 (upsert_webhook (webhook_of t req)) λ _. pure (answer 201 req.hook_id)

unfoldable pub list_webhooks : Exec (Answer (List Webhook))
list_webhooks = lake_response lake_webhooks

abbrev pub deleted : ℕ → Exec (Answer Unit)
deleted zero = pure (refused 404 "not found")
deleted (suc n) = pure (answer 204 tt)

unfoldable pub delete_webhook : String → Exec (Answer Unit)
delete_webhook id = or_500 (lake_delete_webhook id) deleted

abbrev pub hook_payload : Webhook → Json → Json
hook_payload h body = obj (field "template" (str h.payload_template) (field "request" body end))

unfoldable pub hook_envelope : Platform → Uuid → DateTime → Webhook → Json → TaskEnvelope
unfolding new_envelope
hook_envelope p id t h body =
    new_envelope id t h.project webhook h.assigned_agent h.skill h.model
      (p.json_to_string (hook_payload h body)) (max_zero h.priority)

abbrev pub fire_enabled : Platform → String → Json → Webhook → Exec (Answer Uuid)
fire_enabled p hook_id body h = do
  id ← new_v4
  t ← now
  or_500 (submit (hook_envelope p id t h body))
      λ _. attempt (note_webhook_fired hook_id) >> pure (answer 202 id)

abbrev pub fire_found : Platform → String → Json → Option Webhook → Exec (Answer Uuid)
fire_found p hook_id body none = pure (refused 404 "webhook not found")
fire_found p hook_id body (some h) =
    if h.enabled then fire_enabled p hook_id body h else pure (refused 503 "webhook is disabled")

unfoldable pub fire_webhook : Platform → String → Json → Exec (Answer Uuid)
unfolding hook_envelope
fire_webhook p hook_id body = or_500 (get_webhook hook_id) (fire_found p hook_id body)

pub record ScheduleSpec : Type 0 where
  pub id : Option String
  pub cron_expr : String
  pub project : String
  pub assigned_agent : String
  pub skill : Option String
  pub model : Option String
  pub payload : String
  pub priority : Option ℕ
  pub enabled : Bool

unfoldable pub schedule_of : String → DateTime → DateTime → ScheduleSpec → Schedule
schedule_of id t next req = record {
  id = id;
  cron_expr = req.cron_expr;
  project = req.project;
  assigned_agent = req.assigned_agent;
  skill = req.skill;
  model = unwrap_or req.model "nemotron/taifoon";
  payload = req.payload;
  priority = as_i8 (unwrap_or req.priority 5);
  enabled = req.enabled;
  next_run_at = next;
  last_fired_at = none;
  fire_count = 0;
  created_at = t;
}

-- `req.id.unwrap_or_else(|| Uuid::new_v4().to_string())`.
abbrev pub id_or_new : Platform → Option String → Exec String
id_or_new p none = new_v4 >>= λ u. pure (p.uuid_to_string u)
id_or_new p (some id) = pure id

abbrev pub create_at : Platform → ScheduleSpec → DateTime → Reply DateTime → Exec (Answer String)
create_at p req t (error e) = pure (refused 400 ("invalid cron expression: " ⧺ e))
create_at p req t (reply next) = do
  id ← id_or_new p req.id
  or_500 (upsert_schedule (schedule_of id t next req)) λ _. pure (answer 201 id)

unfoldable pub create_schedule : Platform → ScheduleSpec → Exec (Answer String)
unfolding schedule_of next_after
create_schedule p req = now >>= λ t. create_at p req t (next_after p req.cron_expr t)

unfoldable pub list_schedules : Exec (Answer (List Schedule))
list_schedules = lake_response lake_schedules

unfoldable pub delete_schedule : String → Exec (Answer Unit)
delete_schedule id = or_500 (lake_delete_schedule id) deleted
