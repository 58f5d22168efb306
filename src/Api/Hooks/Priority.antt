-- ===== src/Api/Hooks/Priority.antt =====
-- The priority of a webhook's tasks.
use open_mamba.Base.{ℕ, ◌≡◌, refl, some, ltb, if◌then◌else◌, Bool-cases, inl, inr}
use open_mamba.Types.{Uuid, DateTime}
use open_mamba.Types.Json.{Json}
use open_mamba.Platform.{Platform}
use open_mamba.Api.Hooks.{WebhookSpec, webhook_of, hook_envelope}

-- A webhook that is created with a priority submits its tasks with that priority if it is below 128,
-- and with 0, the most urgent one, if it is not.
pub hook_envelope-webhook_of :
    (p : Platform) (id : Uuid) (t t' : DateTime) (req : WebhookSpec) (body : Json) (n : ℕ)
    → req.priority ≡ some n
    → (hook_envelope p id t' (webhook_of t req) body).priority ≡ (if ltb n 128 then n else 0)
unfolding hook_envelope webhook_of
hook_envelope-webhook_of p id t t' req body n h = elim (Bool-cases (ltb n 128)) [
  | inl small ↦ rw (h, small) refl
  | inr large ↦ rw (h, large) refl
]
