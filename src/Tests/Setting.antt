-- ===== src/Tests/Setting.antt =====
-- A platform, a database and clients to run the program with.
use Prim.Native.Char.{char}
use open_mamba.Base.{ℕ, zero, suc, ◌+◌, pos, String, true, List, [], ◌∷◌, Option, some, none}
use open_mamba.Types.{Uuid, TaskEnvelope, seconds, pending, api}
use open_mamba.Types.Json.{Json, str, obj, field, end, arr, cons, nil}
use open_mamba.Platform.{
  Platform, ascii_lower, ascii_upper, MapsAscii, ◌⧺◌, reply, error, transport_error, response,
}
use open_mamba.Lake.Tables.{
  TaskRecord, Workflow, WorkflowStep, WorkflowRun, Webhook, Schedule, Db, no_rows,
}
use open_mamba.Nemotron.{NemotronClient}
use open_mamba.Bus.Openfang.{OpenfangClient}
use open_mamba.Bus.Dispatch.{Bus}
use open_mamba.Tests.Casing.{map_text, map_text-MapsAscii, lower-rest, upper-rest}

abbrev pub unary : ℕ → String
unary zero = "i"
unary (suc n) = String.◌∷◌ (char 105 tt) (unary n)

-- A body is read as the model that it names.
abbrev pub platform : Platform
platform = record {
  to_uppercase = map_text ascii_upper upper-rest;
  to_lowercase = map_text ascii_lower lower-rest;
  show_ℕ = unary;
  uuid_to_string = unary;
  show_status = unary;
  json_to_string = λ j. "{}";
  json_from_str = λ s. some (obj (field "model" (str s) end));
  envelope_to_json = λ e. e.payload;
  hex_encode = λ b. "00";
  hex_decode = λ s. some [];
  sha256_hex = λ s. "00";
  encrypt = λ s. reply s;
  cost_at = λ rates tokens_in tokens_out. 1;
  cron_next = λ expr t. reply (t + seconds 60);
  timestamp_to_varchar = λ t. unary t ⧺ "+00";
  parse_date_time = λ s. none;
}

pub to_lowercase-MapsAscii : MapsAscii platform.to_lowercase ascii_lower
to_lowercase-MapsAscii = map_text-MapsAscii ascii_lower lower-rest

pub to_uppercase-MapsAscii : MapsAscii platform.to_uppercase ascii_upper
to_uppercase-MapsAscii = map_text-MapsAscii ascii_upper upper-rest

-- One agent, which times out, and a provider that is not configured.
abbrev pub openfang : OpenfangClient
openfang = record {
  agents = reply (arr (cons (obj (field "name" (str "coder") (field "id" (str "a1") end))) nil));
  send = λ agent message. transport_error "operation timed out";
  parse = λ s. error s;
}

abbrev pub nemotron : NemotronClient
nemotron = record {
  base_url = none;
  api_key = none;
  grid_key = none;
  buy_url = none;
  general_system = none;
  probe = λ url. none;
  post = λ url req grid key. transport_error "connection refused";
  parse = λ s. error s;
}

abbrev pub bus : Bus
bus = record {
  platform = platform;
  openfang = openfang;
  nemotron = nemotron;
  anchor = record { rpc_url = "http://localhost"; private_key = none };
  forward = λ url body. response 500 "oops";
}

-- A row of the task table.
abbrev pub row : Uuid → String → String → Option String → TaskRecord
row id agent status text = record {
  id = id;
  project = "site";
  source = "api";
  assigned_agent = agent;
  skill = none;
  model = "claude-opus-4-7";
  payload = "do it";
  priority = pos 5;
  status = status;
  openfang_job_id = none;
  tokens_in = none;
  tokens_out = none;
  cost_usd = none;
  encrypted_payload = none;
  chain_tx = none;
  created_at = 10;
  dispatched_at = some 10;
  completed_at = none;
  response = text;
  retry_count = some 0;
  not_before = none;
}

abbrev pub tasks : List TaskRecord → Db
tasks rows = record no_rows { task_envelopes = rows }

abbrev pub envelope : String → TaskEnvelope
envelope model = record {
  id = 1;
  project = "site";
  source = api;
  assigned_agent = "coder";
  skill = none;
  model = model;
  payload = "do it";
  priority = 5;
  status = pending;
  openfang_job_id = none;
  tokens_in = none;
  tokens_out = none;
  cost_usd = none;
  encrypted_payload = none;
  chain_tx = none;
  created_at = 10;
  dispatched_at = none;
  completed_at = none;
}

abbrev pub step : String → String → WorkflowStep
step name agent = record {
  name = name;
  project = "site";
  assigned_agent = agent;
  skill = none;
  model = "claude-opus-4-7";
  payload = "do it";
  priority = 5;
}

abbrev pub workflow : Workflow
workflow = record {
  id = "wf";
  name = "auto:site";
  steps = step "deliver" "coder" ∷ step "review" "code-reviewer" ∷ [];
  enabled = true;
  created_at = 5;
  last_run_at = none;
  run_count = 0;
}

abbrev pub run : ℕ → List Json → WorkflowRun
run at outputs = record {
  run_id = "run";
  workflow_id = "wf";
  status = "running";
  current_step = at;
  outputs = outputs;
  initial_input = none;
  started_at = 5;
  completed_at = none;
  error = none;
  current_task_id = some 1;
}

abbrev pub hook : Webhook
hook = record {
  hook_id = "push";
  project = "site";
  assigned_agent = "planner";
  skill = none;
  model = "nemotron/taifoon";
  payload_template = "look";
  priority = pos 5;
  enabled = true;
  created_at = 5;
  last_fired_at = none;
  fire_count = 0;
}

abbrev pub schedule : Schedule
schedule = record {
  id = "hourly";
  cron_expr = "0 * * * *";
  project = "site";
  assigned_agent = "planner";
  skill = none;
  model = "nemotron/taifoon";
  payload = "look";
  priority = pos 5;
  enabled = true;
  next_run_at = 100;
  last_fired_at = none;
  fire_count = 0;
  created_at = 5;
}

abbrev pub uuids : ℕ → Uuid
uuids n = n + 100
