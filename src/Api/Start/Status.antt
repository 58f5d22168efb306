-- ===== src/Api/Start/Status.antt =====
-- What the dashboard is told of the inference provider, and what the client that is made at the start does.
use open_mamba.Base.{ℕ, ◌≡◌, refl, String, true, false, Option, some}
use open_mamba.Platform.{Platform, error, ◌⧺◌}
use open_mamba.Nemotron.{NemotronAdapter, requires_grid_key, generate}
use open_mamba.Bus.Config.{Vars, Calls, nemotron_from_env}
use open_mamba.Api.Auth.{Env, Headers, intel_status, grid_state}

-- What the handlers read of the environment.
abbrev pub env_of : Vars → Env
env_of vars = record {
  mamba_api_key = vars "MAMBA_API_KEY";
  taifoon_grid_key = vars "TAIFOON_GRID_KEY";
  nemotron_base_url = vars "NEMOTRON_BASE_URL";
}

-- Where NEMOTRON_BASE_URL is set to the empty text, the status is enabled for every request, but the client
-- that is made from the same environment refuses every prompt to an adapter which needs no grid key, as one
-- that is not configured.
intel_status-generate :
    (p : Platform) (c : Calls) (vars : Vars) (h : Headers) (a : NemotronAdapter) (prompt : String)
    (system : Option String) (max_tokens : Option ℕ)
    → vars "NEMOTRON_BASE_URL" ≡ some ""
    → requires_grid_key a ≡ false
    → ((intel_status (env_of vars) h).enabled ≡ true)
      × (generate p (nemotron_from_env c vars) a prompt system max_tokens
          ≡ error (
              "nemotron disabled: set NEMOTRON_BASE_URL to your inference "
              ⧺ "provider's base URL (and optionally NEMOTRON_API_KEY)"))
unfolding intel_status grid_state generate nemotron_from_env
intel_status-generate p c vars h a prompt system max_tokens empty open' =
    (rw empty refl, rw (open', empty) refl)
