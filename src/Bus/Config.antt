-- ===== src/Bus/Config.antt =====
-- What the clients read of the environment when the bus is made: `NemotronClient::from_env` and `with_base` in
-- crates/mamba-nemotron/src/lib.rs, `OpenfangClient::from_env`, `BillingWorker::from_env` and `Bus::new` in
-- crates/mamba-bus. The calls that the clients make are parameters.
use open_mamba.Base.{String, Option, some, unwrap_or}
use open_mamba.Types.Json.{Json}
use open_mamba.Platform.{Platform, Reply, reply, error, HttpResponse, ◌⧺◌}
use open_mamba.Nemotron.{NemotronClient, GenerateRequest, GenerateResponse, non_empty}
use open_mamba.Chain.{anchor_from_env}
use open_mamba.Chain.Crypto.{Encryptor, from_env}
use open_mamba.Bus.Openfang.{OpenfangClient}
use open_mamba.Bus.Dispatch.{Bus}

-- `std::env::var(k).ok()`.
abbrev pub Vars : Type 0
Vars = String → Option String

pub record Calls : Type 0 where
  -- The agent runtime at a base URL.
  pub openfang_at : String → OpenfangClient
  pub probe : String → Option HttpResponse
  pub post : String → GenerateRequest → Option String → Option String → HttpResponse
  pub parse : String → Reply GenerateResponse
  pub forward : String → Json → HttpResponse
  -- The message of `hex::decode`, and the cipher under a key.
  pub hex_error : String → String
  pub seal : Encryptor → String → Reply String

-- An explicit base URL; the keys are from the environment.
unfoldable pub with_base : Calls → Vars → String → NemotronClient
with_base c vars base = record {
  base_url = non_empty (some base);
  api_key = non_empty (vars "NEMOTRON_API_KEY");
  grid_key = non_empty (vars "TAIFOON_GRID_KEY");
  buy_url = vars "NEMOTRON_GRID_BUY_URL";
  general_system = vars "NEMOTRON_GENERAL_SYSTEM";
  probe = c.probe;
  post = c.post;
  parse = c.parse;
}

unfoldable pub nemotron_from_env : Calls → Vars → NemotronClient
nemotron_from_env c vars = record {
  base_url = non_empty (vars "NEMOTRON_BASE_URL");
  api_key = non_empty (vars "NEMOTRON_API_KEY");
  grid_key = non_empty (vars "TAIFOON_GRID_KEY");
  buy_url = vars "NEMOTRON_GRID_BUY_URL";
  general_system = vars "NEMOTRON_GENERAL_SYSTEM";
  probe = c.probe;
  post = c.post;
  parse = c.parse;
}

unfoldable pub openfang_from_env : Calls → Vars → OpenfangClient
openfang_from_env c vars = c.openfang_at (unwrap_or (vars "OPENFANG_URL") "http://127.0.0.1:4200")

-- `expect`: a key that is no key of 32 bytes is a panic.
abbrev with_encryptor : Platform → Calls → Vars → Reply Encryptor → Reply Bus
with_encryptor p c vars (error msg) = error ("MAMBA_ENCRYPT_KEY invalid: " ⧺ msg)
with_encryptor p c vars (reply e) = reply (record {
  platform = record p { encrypt = c.seal e };
  openfang = openfang_from_env c vars;
  nemotron = nemotron_from_env c vars;
  anchor = anchor_from_env (vars "MAMBA_CHAIN_RPC") (vars "MAMBA_CHAIN_KEY");
  forward = c.forward;
})

-- The bus, or the message of the panic.
unfoldable pub bus_new : Platform → Calls → Vars → Reply Bus
unfolding openfang_from_env nemotron_from_env anchor_from_env from_env
bus_new p c vars = with_encryptor p c vars (from_env p c.hex_error (vars "MAMBA_ENCRYPT_KEY"))
