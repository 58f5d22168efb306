-- ===== src/Lake/Triggers.antt =====
-- crates/mamba-lake/src/triggers.rs: the tables webhooks and schedules.
use open_mamba.Base.{
  ℕ, ◌+◌, String, Bool, false, ◌&&◌, Option, some, List, [], ◌∷◌, ◌++◌, ◌==◌, leb, eqb,
  if◌then◌else◌, select, reject, update, sort_by, first, length, any,
}
use open_mamba.Types.{DateTime}
use open_mamba.Lake.Tables.{Webhook, Schedule, Db}
use open_mamba.Lake.Exec.{
  Exec, pure, now, query, execute, execute_count, insert_unique, with_conn, ◌>>=◌, ◌>>◌,
}

abbrev pub is_hook : String → Webhook → Bool
is_hook id h = h.hook_id == id

abbrev pub on_webhooks : (List Webhook → List Webhook) → Db → Db
on_webhooks f d = record d { webhooks = f d.webhooks }

unfoldable pub upsert_webhook : Webhook → Exec Unit
upsert_webhook h = with_conn do
  execute (on_webhooks (reject (is_hook h.hook_id)))
  insert_unique (λ d. any (is_hook h.hook_id) d.webhooks) (on_webhooks λ rows. rows ++ h ∷ [])

unfoldable pub get_webhook : String → Exec (Option Webhook)
get_webhook id = with_conn (query λ d. first (select (is_hook id) d.webhooks))

unfoldable pub list_webhooks : Exec (List Webhook)
list_webhooks = with_conn (query λ d. sort_by (λ a b. leb b.created_at a.created_at) d.webhooks)

unfoldable pub delete_webhook : String → Exec ℕ
delete_webhook id = with_conn (
    execute_count (λ d. length (select (is_hook id) d.webhooks))
      (on_webhooks (update (is_hook id) λ h. record h { enabled = false })))

unfoldable pub note_webhook_fired : String → Exec Unit
note_webhook_fired id = with_conn do
  t ← now
  execute (
      on_webhooks (
        update (is_hook id)
          λ h. record h { last_fired_at = some t; fire_count = h.fire_count + 1 }))

abbrev pub is_schedule : String → Schedule → Bool
is_schedule id s = s.id == id

abbrev pub on_schedules : (List Schedule → List Schedule) → Db → Db
on_schedules f d = record d { schedules = f d.schedules }

-- Every column but the key and `created_at`.
abbrev pub overwrite : Schedule → Schedule → Schedule
overwrite new old = record new { id = old.id; created_at = old.created_at }

unfoldable pub upsert_schedule : Schedule → Exec Unit
upsert_schedule s = with_conn do
  updated ←
      execute_count (λ d. length (select (is_schedule s.id) d.schedules))
        (on_schedules (update (is_schedule s.id) (overwrite s)))
  if eqb updated 0 then execute (on_schedules λ rows. rows ++ s ∷ []) else pure tt

unfoldable pub list_schedules : Exec (List Schedule)
list_schedules = with_conn (query λ d. sort_by (λ a b. leb a.next_run_at b.next_run_at) d.schedules)

unfoldable pub delete_schedule : String → Exec ℕ
delete_schedule id = with_conn (
    execute_count (λ d. length (select (is_schedule id) d.schedules))
      (on_schedules (update (is_schedule id) λ s. record s { enabled = false })))

-- enabled = TRUE AND next_run_at <= now()
abbrev pub is_due : DateTime → Schedule → Bool
is_due t s = s.enabled && leb s.next_run_at t

unfoldable pub due_schedules : Exec (List Schedule)
due_schedules = with_conn do
  t ← now
  query λ d. sort_by (λ a b. leb a.next_run_at b.next_run_at) (select (is_due t) d.schedules)

unfoldable pub advance_schedule : String → DateTime → Exec Unit
advance_schedule id next = with_conn do
  t ← now
  execute (
      on_schedules (
        update (is_schedule id) λ s. record s {
          next_run_at = next;
          last_fired_at = some t;
          fire_count = s.fire_count + 1;
        }))
