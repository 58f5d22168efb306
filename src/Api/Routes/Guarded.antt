-- ===== src/Api/Routes/Guarded.antt =====
-- crates/mamba-api/src/routes.rs, `build`: who gets through to which handler.
use open_mamba.Base.{
  ℕ, zero, suc, ◌≡◌, ◌↔◌, refl, String, some, List, [], ◌∷◌, map, get_elem?, if◌then◌else◌,
}
use open_mamba.Platform.{Platform}
use open_mamba.Api.Auth.{
  Env, Headers, Gate, passes, require_api_key, require_grid_for_nemotron, unauthorized,
}
use open_mamba.Api.Auth.Gates.{
  passes_iff, MayCall, MayIngest, require_api_key_iff, require_grid_for_nemotron_iff,
}
use open_mamba.Api.Routes.{
  Route, get, Guard, open_to_all, api_key, grid_key, build, public, protected, ingest_router,
  fire_webhook, ingest_outcome, openfang_webhook, ingest_task,
}

-- What the layer of a route makes of a request.
unfoldable pub admit : Platform → Env → Headers → String → Guard → Gate
unfolding require_api_key require_grid_for_nemotron
admit p env h body open_to_all = passes
admit p env h body api_key = if require_api_key env h then passes else unauthorized
admit p env h body grid_key = require_grid_for_nemotron p env h body

-- Who is to get through to a route.
pub data Access : Type 0 where
  anyone ingesters callers : Access

-- By what the route does: a read, or a call from outside by a webhook's id, of a solver or of the agent
-- runtime, is for anyone; the rest changes the lake or spends money.
abbrev pub access_of : Route → Access
access_of r = elim r.method [
  | get ↦ anyone
  | _ ↦ elim r.handler [
    | ingest_task ↦ ingesters
    | fire_webhook ↦ anyone
    | ingest_outcome ↦ anyone
    | openfang_webhook ↦ anyone
    | _ ↦ callers
  ]
]

abbrev pub Entitled : Platform → Env → Headers → String → Access → Type 0
Entitled p env h body anyone = Unit
Entitled p env h body ingesters = MayIngest p env h body
Entitled p env h body callers = MayCall env h

guard_for : Access → Guard
guard_for anyone = open_to_all
guard_for ingesters = grid_key
guard_for callers = api_key

-- The table agrees with the rule at every route.
guards : map (λ r. guard_for (access_of r)) build ≡ map (λ r. r.guard) build
unfolding build public protected ingest_router guard_for
guards = refl

map-at :
    {A B : Type 0} (f g : A → B) (l : List A) (i : ℕ) (a : A)
    → map f l ≡ map g l
    → get_elem? l i ≡ some a
    → f a ≡ g a
map-at f g [] i a e h = absurd cc
map-at f g (x ∷ l) zero a e h = let here : f x ≡ g x = cc in cc
map-at f g (x ∷ l) (suc i) a e h = map-at f g l i a (cc) h

call_iff :
    (env : Env) (h : Headers)
    → ((if require_api_key env h then passes else unauthorized) ≡ passes) ↔ MayCall env h
call_iff env h =
    let (found, holds) = passes_iff (require_api_key env h) in
    let (may, allowed) = require_api_key_iff env h in (λ e. may (found e), λ m. holds (allowed m))

admit-guard_for :
    (p : Platform) (env : Env) (h : Headers) (body : String) (a : Access)
    → (admit p env h body (guard_for a) ≡ passes) ↔ Entitled p env h body a
unfolding admit guard_for
admit-guard_for p env h body anyone = (λ e. tt, λ u. refl)
admit-guard_for p env h body ingesters = require_grid_for_nemotron_iff p env h body
admit-guard_for p env h body callers = call_iff env h

-- Each route of the server lets a request through exactly for who is entitled to it: the reads, the calls
-- of webhooks and the reports of a solver and of the agent runtime for anyone; POST /ingest for a body that
-- may be ingested; every other route, which changes the lake or spends money, for who may call, that is
-- where no key is set, or with the mamba key or the grid key.
pub build-admit :
    (p : Platform) (env : Env) (h : Headers) (body : String) (i : ℕ) (r : Route)
    → get_elem? build i ≡ some r
    → (admit p env h body r.guard ≡ passes) ↔ Entitled p env h body (access_of r)
build-admit p env h body i r at =
    rw⁻¹ (map-at (λ r. guard_for (access_of r)) (λ r. r.guard) build i r guards at)
      (admit-guard_for p env h body (access_of r))
