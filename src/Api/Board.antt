-- ===== src/Api/Board.antt =====
-- crates/mamba-api/src/routes.rs: what the dashboard asks for, and the log-only webhook.
use open_mamba.Base.{ℕ, String, Bool, List, map}
use open_mamba.Types.{F64}
use open_mamba.Types.Json.{Json}
use open_mamba.Nemotron.{NemotronClient, slug, health_all}
use open_mamba.Lake.Exec.{Exec, pure}
use open_mamba.Lake.Analytics.{
  GlobalConsumption, ProjectConsumption, AgentConsumption, DailyBurn, global_consumption,
  per_project_consumption, per_agent_consumption, daily_burn_last_30,
}
use open_mamba.Api.Answer.{Answer, lake_response}

module _ (f64_add : F64 → F64 → F64) (f64_ge : F64 → F64 → Bool) where
  unfoldable pub analytics_global : Exec (Answer GlobalConsumption)
  unfolding global_consumption
  analytics_global = lake_response (global_consumption f64_add f64_ge)

  unfoldable pub analytics_projects : Exec (Answer (List ProjectConsumption))
  unfolding per_project_consumption
  analytics_projects = lake_response (per_project_consumption f64_add f64_ge)

  unfoldable pub analytics_agents : Exec (Answer (List AgentConsumption))
  unfolding per_agent_consumption
  analytics_agents = lake_response (per_agent_consumption f64_add f64_ge)

  unfoldable pub analytics_daily : Exec (Answer (List DailyBurn))
  unfolding daily_burn_last_30
  analytics_daily = lake_response (daily_burn_last_30 f64_add f64_ge)

unfoldable pub nemotron_health : NemotronClient → List (String × Bool)
unfolding health_all slug
nemotron_health c = map (λ r. (slug r.0, r.1)) (health_all c)

unfoldable pub openfang_webhook : Json → Exec ℕ
openfang_webhook payload = pure 200
