-- ===== src/Nemotron/Routing.antt =====
-- Which models go to the inference provider.
use open_mamba.Base.{◌≡◌, refl, String, some, codes}
use open_mamba.Platform.{Platform, ascii_lower, MapsAscii}
use open_mamba.Bus.Errors.Signals.{StandsIn, contains-StandsIn}
use open_mamba.Nemotron.{taifoon, from_model_str}

-- A model with the letters "taifoon" anywhere in it, in any casing, is the adapter taifoon.
pub from_model_str-taifoon :
    (p : Platform) (model : String)
    → MapsAscii p.to_lowercase ascii_lower
    → StandsIn ascii_lower (codes "taifoon") model
    → from_model_str p model ≡ some taifoon
unfolding from_model_str
from_model_str-taifoon p model maps stands =
    rw (contains-StandsIn p.to_lowercase ascii_lower model "taifoon" maps stands) refl
