-- ===== src/Bus/Route.antt =====
-- Where the bus sends an envelope.
use open_mamba.Base.{◌≡◌, refl, codes, true}
use text.Mathlib.Text.{starts_with}
use open_mamba.Platform.{ascii_lower, MapsAscii}
use open_mamba.Types.{TaskEnvelope}
use open_mamba.Bus.Errors.Signals.{StandsIn}
use open_mamba.Nemotron.{taifoon}
use open_mamba.Nemotron.Routing.{from_model_str-taifoon}
use open_mamba.Bus.Dispatch.{Bus, route, dispatch_nemotron, forward_prefix}

-- An envelope whose model is an http-forward URL goes to the inference adapter taifoon, and not to
-- the URL, if the URL has the letters "taifoon" in it, in any casing.
route-taifoon :
    (b : Bus) (e : TaskEnvelope)
    → MapsAscii b.platform.to_lowercase ascii_lower
    → starts_with e.model forward_prefix ≡ true
    → StandsIn ascii_lower (codes "taifoon") e.model
    → route b e ≡ dispatch_nemotron b e taifoon
unfolding route
route-taifoon b e maps forwards stands =
    rw (from_model_str-taifoon b.platform e.model maps stands) refl
