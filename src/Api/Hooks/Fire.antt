-- ===== src/Api/Hooks/Fire.antt =====
-- Webhooks that are switched off.
use open_mamba.Base.{ℕ, ◌≡◌, refl, String, false, some, select, update, first, first-select-update}
use open_mamba.Types.{Uuid, DateTime}
use open_mamba.Types.Json.{Json}
use open_mamba.Platform.{Platform}
use open_mamba.Lake.Tables.{Webhook, Db}
use open_mamba.Lake.Exec.{ok, ready, ◌>>=◌}
use open_mamba.Lake.Triggers.{is_hook, on_webhooks, get_webhook, delete_webhook}
use open_mamba.Api.Answer.{refused}
use open_mamba.Api.Hooks.{fire_webhook}

-- The table after a webhook is switched off.
abbrev pub disabled : String → Db → Db
disabled id = on_webhooks (update (is_hook id) λ h. record h { enabled = false })

-- With no database failure, a webhook that is deleted is refused from then on: no task is
-- submitted, and the database stays as the deletion left it.
fire_webhook-delete_webhook :
    (p : Platform) (id : String) (body : Json) (d : Db) (t : DateTime) (ids : ℕ → Uuid)
    (h : Webhook)
    → first (select (is_hook id) d.webhooks) ≡ some h
    → (delete_webhook id >>= λ n. fire_webhook p id body) (ready d t ids)
      ≡ (ok (refused 503 "webhook is disabled"), ready (disabled id d) t ids)
unfolding fire_webhook get_webhook delete_webhook
fire_webhook-delete_webhook p id body d t ids h known =
    rw
      (first-select-update (is_hook id) (λ g. record g { enabled = false }) d.webhooks h (λ g. refl)
        known)
      refl
