-- ===== src/Api/Routes.antt =====
-- crates/mamba-api/src/routes.rs, `build`: which handler answers which method and path, and behind which
-- gate it stands.
pub mod Guarded
use open_mamba.Base.{
  ◌≡◌, refl, String, Bool, true, false, not, ◌&&◌, List, [], ◌∷◌, ◌++◌, ◌==◌, any,
}

pub data Method : Type 0 where
  get post delete : Method

-- `require_api_key`, `require_grid_for_nemotron`, or none.
pub data Guard : Type 0 where
  open_to_all api_key grid_key : Guard

pub data Handler : Type 0 where
  ingest_task retry_task retry_pending nemotron_generate publish_skip_rules : Handler
  create_webhook delete_webhook create_schedule delete_schedule : Handler
  create_workflow delete_workflow run_workflow : Handler
  ui_index fire_webhook list_webhooks list_schedules : Handler
  list_workflows get_workflow list_runs get_run list_tasks get_task : Handler
  analytics_global analytics_projects analytics_agents analytics_daily : Handler
  nemotron_health intel_status ingest_outcome list_outcomes count_outcomes_route list_skip_rules :
      Handler
  openfang_webhook health auth_status : Handler

pub record Route : Type 0 where
  pub method : Method
  pub path : String
  pub handler : Handler
  pub guard : Guard

abbrev route : Guard → Method → String → Handler → Route
route g m p h = record { method = m; path = p; handler = h; guard = g }

unfoldable pub ingest_router : List Route
ingest_router = route grid_key post "/ingest" ingest_task ∷ []

unfoldable pub protected : List Route
protected =
    route api_key post "/api/tasks/:id/retry" retry_task
    ∷ route api_key post "/api/tasks/retry-pending" retry_pending
    ∷ route api_key post "/api/nemotron/:model/generate" nemotron_generate
    ∷ route api_key post "/api/solver/skip-rules" publish_skip_rules
    ∷ route api_key post "/api/webhooks" create_webhook
    ∷ route api_key delete "/api/webhooks/:hook_id" delete_webhook
    ∷ route api_key post "/api/schedules" create_schedule
    ∷ route api_key delete "/api/schedules/:id" delete_schedule
    ∷ route api_key post "/api/workflows" create_workflow
    ∷ route api_key delete "/api/workflows/:id" delete_workflow
    ∷ route api_key post "/api/workflows/:id/run" run_workflow
    ∷ []

unfoldable pub public : List Route
public =
    route open_to_all get "/" ui_index
    ∷ route open_to_all post "/webhooks/:hook_id" fire_webhook
    ∷ route open_to_all get "/api/webhooks" list_webhooks
    ∷ route open_to_all get "/api/schedules" list_schedules
    ∷ route open_to_all get "/api/workflows" list_workflows
    ∷ route open_to_all get "/api/workflows/:id" get_workflow
    ∷ route open_to_all get "/api/workflows/runs" list_runs
    ∷ route open_to_all get "/api/workflows/runs/:run_id" get_run
    ∷ route open_to_all get "/api/tasks" list_tasks
    ∷ route open_to_all get "/api/tasks/:id" get_task
    ∷ route open_to_all get "/api/analytics/global" analytics_global
    ∷ route open_to_all get "/api/analytics/projects" analytics_projects
    ∷ route open_to_all get "/api/analytics/agents" analytics_agents
    ∷ route open_to_all get "/api/analytics/daily" analytics_daily
    ∷ route open_to_all get "/api/nemotron/health" nemotron_health
    ∷ route open_to_all get "/api/intel/status" intel_status
    ∷ route open_to_all post "/api/solver/outcomes" ingest_outcome
    ∷ route open_to_all get "/api/solver/outcomes" list_outcomes
    ∷ route open_to_all get "/api/solver/outcomes/count" count_outcomes_route
    ∷ route open_to_all get "/api/solver/skip-rules" list_skip_rules
    ∷ route open_to_all post "/webhook/openfang" openfang_webhook
    ∷ route open_to_all get "/health" health
    ∷ route open_to_all get "/api/auth/status" auth_status
    ∷ []

unfoldable pub build : List Route
unfolding public ingest_router protected
build = public ++ (ingest_router ++ protected)

abbrev same_method : Method → Method → Bool
same_method get get = true
same_method post post = true
same_method delete delete = true
same_method _ _ = false

abbrev overlaps : Route → Route → Bool
overlaps r q = same_method r.method q.method && r.path == q.path

abbrev is_distinct : List Route → Bool
is_distinct [] = true
is_distinct (r ∷ rest) = not (any (overlaps r) rest) && is_distinct rest

-- `merge` panics at the start where two routers answer the same method and path: none do.
build-is_distinct : is_distinct build ≡ true
unfolding build
build-is_distinct = refl
