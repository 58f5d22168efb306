-- ===== src/Tests/Gates.antt =====
-- Keys and gates.
use open_mamba.Base.{◌≡◌, ◌↔◌, refl, String, true, some, none, [], codes, arith}
use open_mamba.Nemotron.{taifoon}
use open_mamba.Bus.Dispatch.{route, dispatch_nemotron}
use open_mamba.Api.Auth.{Env, Headers, ct_eq, require_api_key, require_grid_for_nemotron, passes}
use open_mamba.Api.Auth.Gates.{
  MayCall, ct_eq_iff, require_api_key_iff, require_grid_for_nemotron-route,
}
use open_mamba.Api.Routes.{
  Route, post, run_workflow, api_key, build, public, ingest_router, protected,
}
use open_mamba.Api.Routes.Guarded.{admit, Entitled, access_of, build-admit}
use open_mamba.Tests.Setting.{platform, bus, envelope, to_lowercase-MapsAscii}

abbrev env : Env
env = record { mamba_api_key = some "secret"; taifoon_grid_key = none; nemotron_base_url = none }

abbrev headers : Headers
headers = record { authorization = some "Bearer secret"; x_mamba_key = none; x_grid_key = none }

ct_eq_iff_example : (ct_eq "secret" "Secret" ≡ true) ↔ (◌≡◌ {A = String} "secret" "Secret")
ct_eq_iff_example = ct_eq_iff "secret" "Secret"

require_api_key_iff_example : (require_api_key env headers ≡ true) ↔ MayCall env headers
require_api_key_iff_example = require_api_key_iff env headers

abbrev run_route : Route
run_route = record {
  method = post;
  path = "/api/workflows/:id/run";
  handler = run_workflow;
  guard = api_key;
}

build-admit_example :
    (admit platform env headers "" run_route.guard ≡ passes)
    ↔ Entitled platform env headers "" (access_of run_route)
unfolding build public ingest_router protected
build-admit_example = build-admit platform env headers "" 34 run_route refl

require_grid_for_nemotron-route_example :
    (require_grid_for_nemotron platform
        (record env { taifoon_grid_key = some "taif-1" })
        headers
        "Nemotron/Taifoon"
      ≡ passes)
    × (route bus (envelope "Nemotron/Taifoon")
        ≡ dispatch_nemotron bus (envelope "Nemotron/Taifoon") taifoon)
require_grid_for_nemotron-route_example =
    require_grid_for_nemotron-route bus (record env { taifoon_grid_key = some "taif-1" }) headers
      "Nemotron/Taifoon" (envelope "Nemotron/Taifoon") to_lowercase-MapsAscii (ground arith) refl
      refl (codes "Nemotron/", codes "Taifoon", [], refl, ground arith, refl)
