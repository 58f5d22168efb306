-- ===== src/Bus/Dispatch/Nemotron.antt =====
-- What a dispatch to the inference provider costs.
use open_mamba.Base.{ℤ, ◌≡◌, refl, some}
use open_mamba.Types.{f64_zero}
use open_mamba.Platform.{Platform}
use open_mamba.Nemotron.{
  NemotronAdapter, taifoon, polymarket, algotrada, general, slug, from_model_str,
}
use open_mamba.Bus.Dispatch.{estimate_cost_usd}

-- The name of each adapter is read back as that adapter, if lower case leaves it as it is.
pub from_model_str-slug :
    (p : Platform) (a : NemotronAdapter)
    → p.to_lowercase (slug a) ≡ slug a
    → from_model_str p (slug a) ≡ some a
unfolding from_model_str slug
from_model_str-slug p taifoon h = rw h refl
from_model_str-slug p polymarket h = rw h refl
from_model_str-slug p algotrada h = rw h refl
from_model_str-slug p general h = rw h refl

-- The cost that a dispatch to the provider is billed at, estimated from the name of its adapter, is
-- zero whatever tokens it used, if lower case leaves that name as it is.
pub estimate_cost_usd-slug :
    (p : Platform) (a : NemotronAdapter) (tokens_in tokens_out : ℤ)
    → p.to_lowercase (slug a) ≡ slug a
    → estimate_cost_usd p tokens_in tokens_out (slug a) ≡ f64_zero
unfolding estimate_cost_usd
estimate_cost_usd-slug p a tokens_in tokens_out h = rw (from_model_str-slug p a h) refl
