-- ===== src/Api/Auth.antt =====
-- crates/mamba-api/src/routes.rs: who may call which route.
pub mod Compare
pub mod Gates
use Prim.Native.Nat.{bit_or, bit_xor}
use Prim.Native.String.{slice}
use text.Mathlib.Text.{starts_with}
use open_mamba.Base.{
  ℕ, String, len, Bool, true, false, ◌&&◌, ◌||◌, not, Option, none, some, List, [], ◌∷◌, eqb, ltb,
  leb, codes, utf8, length, contains, is_some, unwrap_or, ◌==◌, if◌then◌else◌,
}
use open_mamba.Types.Json.{Json, get, as_str}
use open_mamba.Platform.{Platform}
use open_mamba.Nemotron.{non_empty}

-- The fold of `diff |= a[i] ^ b[i]` over the bytes.
unfoldable pub diff_from : ℕ → List ℕ → List ℕ → ℕ
diff_from diff [] bs = diff
diff_from diff (a ∷ as') [] = diff
diff_from diff (a ∷ as') (b ∷ bs) = diff_from (bit_or diff (bit_xor a b)) as' bs

unfoldable pub ct_eq_bytes : List ℕ → List ℕ → Bool
unfolding diff_from
ct_eq_bytes a b = if not (eqb (length a) (length b)) then false else eqb (diff_from 0 a b) 0

unfoldable pub ct_eq : String → String → Bool
unfolding ct_eq_bytes
ct_eq a b = ct_eq_bytes (utf8 (codes a)) (utf8 (codes b))

-- The environment, and the headers whose value is text.
pub record Env : Type 0 where
  pub mamba_api_key : Option String
  pub taifoon_grid_key : Option String
  pub nemotron_base_url : Option String

pub record Headers : Type 0 where
  pub authorization : Option String
  pub x_mamba_key : Option String
  pub x_grid_key : Option String

abbrev pub key_matches : Option String → Option String → Bool
key_matches none provided = false
key_matches (some expected) none = false
key_matches (some expected) (some provided) = ct_eq expected provided

-- (env_set, signed_in)
unfoldable pub grid_state : Env → Headers → Bool × Bool
unfolding ct_eq
grid_state env h =
    let key = non_empty env.taifoon_grid_key in (is_some key, key_matches key h.x_grid_key)

abbrev pub bearer : Option String → Option String
bearer none = none
bearer (some s) = if starts_with s "Bearer " then some (slice s 7 (len s)) else none

abbrev pub or_else : Option String → Option String → Option String
or_else none b = b
or_else (some a) b = some a

-- Whether the request reaches its handler; if not, the answer is 401.
unfoldable pub require_api_key : Env → Headers → Bool
unfolding ct_eq
require_api_key env h =
    let mamba_key = non_empty env.mamba_api_key in
    let grid_key = non_empty env.taifoon_grid_key in
    if not (is_some mamba_key) && not (is_some grid_key)
    then true
    else key_matches mamba_key (or_else h.x_mamba_key (bearer h.authorization))
      || key_matches grid_key h.x_grid_key

pub data Gate : Type 0 where
  passes unauthorized too_large : Gate

abbrev pub body_limit : ℕ
body_limit = 1_048_576

-- The "model" field of a JSON body, or "".
abbrev pub model_field : Option Json → String
model_field none = ""
model_field (some v) = elim (get v "model") [ none ↦ "" | some m ↦ unwrap_or (as_str m) "" ]

-- The gate of POST /ingest: the body, as text, is read for the model that it asks for.
unfoldable pub require_grid_for_nemotron : Platform → Env → Headers → String → Gate
unfolding grid_state
require_grid_for_nemotron p env h body =
    if not (grid_state env h).0
    then passes
    else if ltb body_limit (len body)
    then too_large
    else if not (starts_with (model_field (p.json_from_str body)) "nemotron/")
    then passes
    else if (grid_state env h).1
    then passes
    else unauthorized

abbrev pub intel_kind : Option String → String
intel_kind none = "none"
intel_kind (some url) =
    if contains url "taifoon.dev" || contains url "taifoon.io" then "taifoon-intel" else "byo"

pub record IntelStatus : Type 0 where
  pub enabled : Bool
  pub kind : String
  pub via : String
  pub adapters : List String

unfoldable pub intel_status : Env → Headers → IntelStatus
unfolding grid_state
intel_status env h =
    let authed = (grid_state env h).1 in
    let enabled = is_some env.nemotron_base_url || authed in
    let kind = intel_kind env.nemotron_base_url in
    record {
      enabled = enabled;
      kind = if authed && kind == "none" then "grid-key" else kind;
      via =
          if authed then "x-grid-key" else if is_some env.nemotron_base_url then "env" else "none";
      adapters = if enabled then "taifoon" ∷ "polymarket" ∷ "algotrada" ∷ [] else [];
    }

pub record AuthStatus : Type 0 where
  pub mode : String
  pub signed_in : Bool
  pub kind : String
  pub gates : List String

unfoldable pub auth_status : Env → Headers → AuthStatus
unfolding grid_state
auth_status env h =
    let (env_set, signed_in) = grid_state env h in
    record {
      mode = if env_set then "guarded" else "open";
      signed_in = signed_in;
      kind = intel_kind env.nemotron_base_url;
      gates = if env_set then "nemotron" ∷ [] else [];
    }
