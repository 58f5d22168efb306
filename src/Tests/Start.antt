-- ===== src/Tests/Start.antt =====
-- The start of a server on an empty disk, and what it reads of the environment.
use open_mamba.Base.{◌≡◌, refl, true, some, none, [], ◌∷◌, if◌then◌else◌, ◌==◌}
use open_mamba.Platform.{transport_error, error, reply}
use open_mamba.Lake.Startup.{Store, open_lake}
use open_mamba.Bus.Config.{Vars, Calls, bus_new}
use open_mamba.Api.Auth.{Headers, intel_status, grid_state}
use open_mamba.Api.Start.{Host, port_of, parse_u16, main}
use open_mamba.Api.Start.Status.{env_of}
use open_mamba.Tests.Setting.{platform, openfang}

abbrev empty_url : Vars
empty_url k = if k == "NEMOTRON_BASE_URL" then some "" else none

abbrev calls : Calls
calls = record {
  openfang_at = λ url. openfang;
  probe = λ url. none;
  post = λ url req grid key. transport_error "connection refused";
  parse = λ s. error s;
  forward = λ url body. transport_error "connection refused";
  hex_error = λ s. s;
  seal = λ key s. reply s;
}

abbrev anonymous : Headers
anonymous = record { authorization = none; x_mamba_key = none; x_grid_key = none }

-- A PORT that is no u16 is passed over.
port : port_of (some "70000") ≡ 1337
unfolding port_of parse_u16
port = refl

-- The status reports a provider that is set to the empty text.
status : (intel_status (env_of empty_url) anonymous).enabled ≡ true
unfolding intel_status grid_state
status = refl

abbrev disk : Store
disk = record {
  tasks = none;
  schedules = none;
  schedules_pk = true;
  task_file = none;
  schedule_file = none;
  clock = 50;
  faults = [];
}

-- The port is taken.
abbrev host : Host
host = record {
  vars = λ k. if k == "PORT" then some "+80" else none;
  calls = calls;
  platform = record platform { hex_decode = λ s. some (0 ∷ []) };
  create_dir_all = λ d. reply tt;
  file = λ path. disk;
  open_error = "locked";
  timestamp_text = λ t. "2026-01-01 12:00:00+00";
  to_rfc3339 = λ t. "2026-01-01T12:00:00+00:00";
  bind = λ port. error "address in use";
}

-- A key that is too short: the lake has been opened, nothing runs.
started : (main host).loops ≡ []
unfolding main bus_new open_lake
started = refl
