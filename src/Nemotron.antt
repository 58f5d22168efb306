-- ===== src/Nemotron.antt =====
-- crates/mamba-nemotron/src/lib.rs: the inference adapters and the client.
pub mod Routing
use open_mamba.Base.{
  ℕ, String, Bool, true, false, not, ◌&&◌, ◌||◌, Option, none, some, List, [], ◌∷◌, contains, eqb,
  is_some, if◌then◌else◌, unwrap_or,
}
use open_mamba.Types.{F64}
use open_mamba.Platform.{
  Platform, Reply, reply, error, HttpResponse, transport_error, response, is_success, ◌⧺◌,
}

pub data NemotronAdapter : Type 0 where
  taifoon polymarket algotrada general : NemotronAdapter

unfoldable pub slug : NemotronAdapter → String
slug taifoon = "taifoon"
slug polymarket = "polymarket"
slug algotrada = "algotrada"
slug general = "general"

abbrev pub adapter_of : String → Option NemotronAdapter
adapter_of lower =
    if contains lower "taifoon"
    then some taifoon
    else if contains lower "polymarket"
    then some polymarket
    else if contains lower "algotrada"
    then some algotrada
    else if contains lower "general"
    then some general
    else none

unfoldable pub from_model_str : Platform → String → Option NemotronAdapter
unfolding contains
from_model_str p s = adapter_of (p.to_lowercase s)

abbrev pub requires_grid_key : NemotronAdapter → Bool
requires_grid_key general = true
requires_grid_key taifoon = false
requires_grid_key _ = false

pub record GenerateRequest : Type 0 where
  pub prompt : String
  pub max_tokens : Option ℕ
  -- The bits of an f32.
  pub temperature : Option ℕ
  pub system : Option String

pub record GenerateResponse : Type 0 where
  pub response : String
  pub tokens : ℕ
  pub duration : F64
  pub tokens_per_second : F64
  pub model : Option String

-- The client and the environment that `generate` reads, with the provider that it calls: the
-- probe of a health URL (no answer within 8 s is `none`) and the POST of a request with its keys.
pub record NemotronClient : Type 0 where
  pub base_url : Option String
  pub api_key : Option String
  pub grid_key : Option String
  pub buy_url : Option String
  pub general_system : Option String
  pub probe : String → Option HttpResponse
  pub post : String → GenerateRequest → Option String → Option String → HttpResponse
  pub parse : String → Reply GenerateResponse

-- `std::env::var(k).ok().filter(|s| !s.is_empty())`.
abbrev pub non_empty : Option String → Option String
non_empty none = none
non_empty (some String.[]) = none
non_empty (some (String.◌∷◌ c s)) = some (String.◌∷◌ c s)

unfoldable pub is_configured : NemotronClient → Bool
is_configured c = is_some c.base_url

abbrev pub buy_link : NemotronClient → String
buy_link c = unwrap_or c.buy_url "https://scanner.taifoon.dev/grid/buy"

abbrev pub probe_result : Platform → Option HttpResponse → Option String
probe_result p none = some (
    "nemotron/general adapter probe timed out (8s). "
    ⧺ "Deploy the general adapter on scanner.taifoon.dev.")
probe_result p (some (transport_error e)) = some (
    "nemotron/general health check failed (" ⧺ e
    ⧺ "). Adapter not deployed — add it to scanner.taifoon.dev.")
probe_result p (some (response status body)) =
    if is_success status
    then none
    else some (
        "nemotron/general adapter not available (health: "
        ⧺ p.show_status status
        ⧺ "). Deploy the general adapter on scanner.taifoon.dev, "
        ⧺ "or use nemotron/taifoon for domain-specific queries.")

-- The health check of the general adapter; the others are not probed.
abbrev pub health_error : Platform → NemotronClient → NemotronAdapter → String → Option String
health_error p c general base = probe_result p (c.probe (base ⧺ "/general/health"))
health_error p c taifoon base = none
health_error p c _ base = none

abbrev pub effective_system : NemotronClient → NemotronAdapter → Option String → Option String
effective_system c general none = some (
    unwrap_or c.general_system
      "You are a helpful general-purpose assistant. Be concise and factual.")
effective_system c general (some s) = some s
effective_system c taifoon system = system
effective_system c _ system = system

abbrev pub refusal : Platform → NemotronClient → NemotronAdapter → ℕ → String → String
refusal p c adapter status text =
    if requires_grid_key adapter && (eqb status 401 || eqb status 403)
    then "nemotron/general: grid key rejected ("
      ⧺ p.show_status status
      ⧺ "). Top up credits on Base: "
      ⧺ buy_link c
    else "nemotron " ⧺ slug adapter ⧺ " returned " ⧺ p.show_status status ⧺ ": " ⧺ text

abbrev pub read_answer :
    Platform → NemotronClient → NemotronAdapter → HttpResponse → Reply GenerateResponse
read_answer p c adapter (transport_error e) = error e
read_answer p c adapter (response status body) =
    if is_success status then c.parse body else error (refusal p c adapter status body)

abbrev pub ask :
    Platform
    → NemotronClient
    → NemotronAdapter
    → String
    → Option String
    → Option ℕ
    → Option String
    → String
    → Reply GenerateResponse
ask p c adapter prompt system max_tokens (some e) base = error e
ask p c adapter prompt system max_tokens none base = read_answer p c adapter (
    c.post (base ⧺ "/" ⧺ slug adapter ⧺ "/generate")
      (record {
        prompt = prompt;
        max_tokens = max_tokens;
        temperature = some 0x3e99999a;
        system = effective_system c adapter system;
      })
      c.grid_key c.api_key)

abbrev pub ask_base :
    Platform
    → NemotronClient
    → NemotronAdapter
    → String
    → Option String
    → Option ℕ
    → Option String
    → Reply GenerateResponse
ask_base p c adapter prompt system max_tokens none = error (
    "nemotron disabled: set NEMOTRON_BASE_URL to your inference "
    ⧺ "provider's base URL (and optionally NEMOTRON_API_KEY)")
ask_base p c adapter prompt system max_tokens (some base) =
    ask p c adapter prompt system max_tokens (health_error p c adapter base) base

unfoldable pub generate :
    Platform
    → NemotronClient
    → NemotronAdapter
    → String
    → Option String
    → Option ℕ
    → Reply GenerateResponse
unfolding slug
generate p c adapter prompt system max_tokens =
    if requires_grid_key adapter && not (is_some c.grid_key)
    then error (
        "nemotron/general requires a Taifoon grid key. "
        ⧺ "Top up on Base and set TAIFOON_GRID_KEY=taif-… in your .env — get credits at: "
        ⧺ buy_link c)
    else ask_base p c adapter prompt system max_tokens c.base_url

abbrev pub healthy : Option HttpResponse → Bool
healthy none = false
healthy (some (transport_error e)) = false
healthy (some (response status body)) = is_success status

abbrev pub health_of : NemotronClient → Option String → NemotronAdapter → NemotronAdapter × Bool
health_of c none a = (a, false)
health_of c (some base) a = (a, healthy (c.probe (base ⧺ "/" ⧺ slug a ⧺ "/health")))

-- The four probes, in the order of the list; each stands alone.
unfoldable pub health_all : NemotronClient → List (NemotronAdapter × Bool)
unfolding slug
health_all c =
    health_of c c.base_url taifoon
    ∷ health_of c c.base_url polymarket
    ∷ health_of c c.base_url algotrada
    ∷ health_of c c.base_url general
    ∷ []
