-- ===== src/Api/Auth/Gates.antt =====
-- What the gates let through.
use open_mamba.Base.{
  ◌≡◌, ◌↔◌, refl, String, len, Bool, true, false, Option, none, some, ◌||◌, codes, utf8,
  utf8-codes-IsBytes, utf8-codes-inj, is_some, not, ℕ, ltb, Bool-cases, ◌&&◌, if◌then◌else◌, sym,
  ap, ◌⊎◌, inl, inr, ◌≤◌, arith,
}
use text.Mathlib.Text.{starts_with}
use open_mamba.Platform.{Platform, ascii_lower, MapsAscii}
use open_mamba.Types.{TaskEnvelope}
use open_mamba.Bus.Errors.Signals.{StandsIn}
use open_mamba.Nemotron.{taifoon, non_empty}
use open_mamba.Nemotron.Routing.{from_model_str-taifoon}
use open_mamba.Bus.Dispatch.{Bus, route, dispatch_nemotron}
use open_mamba.Api.Auth.{
  Env, Headers, require_grid_for_nemotron, grid_state, Gate, too_large, unauthorized, model_field,
  passes, body_limit, require_api_key, key_matches, or_else, bearer, ct_eq,
}
use open_mamba.Api.Auth.Compare.{ct_eq_bytes_iff}

-- A body whose model does not start with "nemotron/" but has "taifoon" in it, in any casing, passes
-- the gate of the inference routes without a grid key, and its envelope goes to the provider.
pub require_grid_for_nemotron-route :
    (b : Bus) (env : Env) (h : Headers) (body : String) (e : TaskEnvelope)
    → MapsAscii b.platform.to_lowercase ascii_lower
    → len body ≤ body_limit
    → model_field (b.platform.json_from_str body) ≡ e.model
    → starts_with e.model "nemotron/" ≡ false
    → StandsIn ascii_lower (codes "taifoon") e.model
    → (require_grid_for_nemotron b.platform env h body ≡ passes)
      × (route b e ≡ dispatch_nemotron b e taifoon)
unfolding require_grid_for_nemotron route
require_grid_for_nemotron-route b env h body e maps small asked other stands =
    (ground (arith, asked, other), rw (from_model_str-taifoon b.platform e.model maps stands) refl)

-- Two keys are equal for the server exactly when they are the same text: the comparison runs over their
-- bytes, and UTF-8 gives no two texts the same bytes.
pub ct_eq_iff : (a b : String) → (ct_eq a b ≡ true) ↔ (a ≡ b)
unfolding ct_eq
ct_eq_iff a b =
    let (found, holds) =
      ct_eq_bytes_iff (utf8 (codes a)) (utf8 (codes b)) (utf8-codes-IsBytes a)
        (utf8-codes-IsBytes b) in
    (λ h. utf8-codes-inj a b (found h), λ h. holds (ap (λ s. utf8 (codes s)) h))

-- A key that is set, and what the request provides is the key.
abbrev pub Matches : Option String → Option String → Type 0
Matches key provided = (k : String) × (key ≡ some k) × (provided ≡ some k)

pub key_matches_iff :
    (key provided : Option String) → (key_matches key provided ≡ true) ↔ Matches key provided
key_matches_iff none provided = (λ h. cc, λ (k, e, h). cc)
key_matches_iff (some k) none = (λ h. cc, λ (k', e, h). cc)
key_matches_iff (some k) (some s) =
    let (found, holds) = ct_eq_iff k s in
    (λ h. (k, refl, ap some (sym (found h))), λ (k', e, e'). holds cc)

or_iff : {A B : Type 0} (a b : Bool) → (a ≡ true) ↔ A → (b ≡ true) ↔ B → ((a || b) ≡ true) ↔ (A ⊎ B)
or_iff true b (f, g) (f', g') = (λ h. inl (f refl), λ h. refl)
or_iff false b (f, g) (f', g') =
    (λ h. inr (f' h), λ h. elim h [ inl x ↦ absurd (cc (g x)) | inr y ↦ g' y ])

either_iff :
    (m g p q : Option String)
    → ((key_matches m p || key_matches g q) ≡ true) ↔ (Matches m p ⊎ Matches g q)
either_iff m g p q =
    or_iff (key_matches m p) (key_matches g q) (key_matches_iff m p) (key_matches_iff g q)

closed : {A B C : Type 0} → (A → ⊥) → C ↔ B → C ↔ (A ⊎ B)
closed never (f, g) = (λ h. inr (f h), λ h. elim h [ inl a ↦ absurd (never a) | inr b ↦ g b ])

-- The gate on the two keys that are set and the two texts that the request provides.
gate_iff :
    (m g p q : Option String)
    → ((if not (is_some m) && not (is_some g) then true else key_matches m p || key_matches g q)
        ≡ true)
      ↔ (((m ≡ none) × (g ≡ none)) ⊎ (Matches m p ⊎ Matches g q))
gate_iff none none p q = (λ h. inl (refl, refl), λ h. refl)
gate_iff none (some g) p q = closed (λ (e, e'). cc) (either_iff none (some g) p q)
gate_iff (some m) g p q = closed (λ (e, e'). cc) (either_iff (some m) g p q)

-- Who may call the routes that cost money: anyone where neither key is set, or whoever brings the mamba
-- key, in X-Mamba-Key or without that header as a bearer token, or the grid key in X-Grid-Key.
abbrev pub MayCall : Env → Headers → Type 0
MayCall env h =
    ((non_empty env.mamba_api_key ≡ none) × (non_empty env.taifoon_grid_key ≡ none))
    ⊎ (Matches (non_empty env.mamba_api_key) (or_else h.x_mamba_key (bearer h.authorization))
        ⊎ Matches (non_empty env.taifoon_grid_key) h.x_grid_key)

-- In every environment, a request passes the gate of the routes that cost money exactly if neither key is
-- set, or it brings the mamba key as a text equal to it, in X-Mamba-Key or, without that header, as a
-- bearer token, or it brings the grid key in X-Grid-Key. An empty key counts as not set.
pub require_api_key_iff : (env : Env) (h : Headers) → (require_api_key env h ≡ true) ↔ MayCall env h
unfolding require_api_key
require_api_key_iff env h =
    gate_iff (non_empty env.mamba_api_key) (non_empty env.taifoon_grid_key)
      (or_else h.x_mamba_key (bearer h.authorization)) h.x_grid_key

-- Who may submit a task: anyone where no grid key is set; else a body of at most a megabyte that asks for
-- no model with the prefix nemotron/, or comes with the grid key.
abbrev pub MayIngest : Platform → Env → Headers → String → Type 0
MayIngest p env h body =
    (non_empty env.taifoon_grid_key ≡ none)
    ⊎ ((len body ≤ body_limit)
        × ((starts_with (model_field (p.json_from_str body)) "nemotron/" ≡ false)
            ⊎ Matches (non_empty env.taifoon_grid_key) h.x_grid_key))

pub passes_iff : (b : Bool) → ((if b then passes else unauthorized) ≡ passes) ↔ (b ≡ true)
passes_iff true = (λ h. refl, λ h. refl)
passes_iff false = (λ h. absurd cc, λ h. absurd cc)

-- The gate on the key that is set, the text that is provided, the body's size and its model's prefix.
small_gate :
    (k : String) (q : Option String) (prefixed : Bool)
    → ((if not prefixed then passes else if key_matches (some k) q then passes else unauthorized)
        ≡ passes)
      ↔ ((prefixed ≡ false) ⊎ Matches (some k) q)
small_gate k q false = (λ h. inl refl, λ h. refl)
small_gate k q true =
    let (found, holds) = passes_iff (key_matches (some k) q) in
    let (brings, matches) = key_matches_iff (some k) q in
    (λ h. inr (brings (found h)), λ h. elim h [ inl e ↦ absurd cc | inr m ↦ holds (matches m) ])

sized :
    (n : ℕ) (g : Gate) {B : Type 0}
    → (g ≡ passes) ↔ B
    → ((if ltb body_limit n then too_large else g) ≡ passes) ↔ ((n ≤ body_limit) × B)
sized n g (f, back) = elim (Bool-cases (ltb body_limit n)) [
  | inl h ↦ rw h (λ e. absurd cc, λ (l, b). absurd (ground (arith)))
  | inr h ↦ rw h (λ e. (ground (arith), f e), λ (l, b). back b)
]

ingest_gate :
    (key q : Option String) (n : ℕ) (prefixed : Bool)
    → ((if not (is_some key)
          then passes
          else if ltb body_limit n
          then too_large
          else if not prefixed
          then passes
          else if key_matches key q
          then passes
          else unauthorized)
        ≡ passes)
      ↔ ((key ≡ none) ⊎ ((n ≤ body_limit) × ((prefixed ≡ false) ⊎ Matches key q)))
ingest_gate none q n prefixed = (λ h. inl refl, λ h. refl)
ingest_gate (some k) q n prefixed =
    closed (λ h. cc)
      (sized n
        (if not prefixed then passes else if key_matches (some k) q then passes else unauthorized)
        (small_gate k q prefixed))

pub require_grid_for_nemotron_iff :
    (p : Platform) (env : Env) (h : Headers) (body : String)
    → (require_grid_for_nemotron p env h body ≡ passes) ↔ MayIngest p env h body
unfolding require_grid_for_nemotron grid_state
require_grid_for_nemotron_iff p env h body =
    ingest_gate (non_empty env.taifoon_grid_key) h.x_grid_key (len body)
      (starts_with (model_field (p.json_from_str body)) "nemotron/")
