-- ===== src/Bus/Openfang.antt =====
-- crates/mamba-bus/src/openfang.rs: the HTTP client of the agent runtime. The two calls that it
-- makes are parameters: the JSON of /api/agents, and the POST of a message.
use open_mamba.Base.{ℕ, ℤ, String, Bool, Option, none, some, ◌==◌, as_i64, unwrap_or, if◌then◌else◌}
use open_mamba.Types.{F64, f64_zero, TaskEnvelope}
use open_mamba.Types.Json.{Json, Items, nil, cons, arr, null, get, as_str}
use open_mamba.Platform.{
  Platform, Reply, reply, error, HttpResponse, transport_error, is_success, ◌⧺◌,
}

pub record MessageResponse : Type 0 where
  pub response : String
  pub input_tokens : ℕ
  pub output_tokens : ℕ
  pub cost_usd : Option F64

pub record DispatchResult : Type 0 where
  pub response : String
  pub input_tokens : ℤ
  pub output_tokens : ℤ
  pub cost_usd : F64

pub record OpenfangClient : Type 0 where
  pub agents : Reply Json
  -- The agent's id and the message.
  pub send : String → String → HttpResponse
  pub parse : String → Reply MessageResponse

abbrev pub field_str : Json → String → Option String
field_str a k = elim (get a k) [ none ↦ none | some v ↦ as_str v ]

abbrev pub names : Option String → String → Bool
names none slug = Bool.false
names (some n) slug = n == slug

unfoldable pub find_agent : String → Items → Option String
find_agent slug nil = none
find_agent slug (cons a rest) =
    let later = find_agent slug rest in
    if names (field_str a "name") slug
    then elim (field_str a "id") [ some id ↦ some id | none ↦ later ]
    else later

abbrev pub agent_or_error : String → Option String → Reply String
agent_or_error slug none = error ("openfang agent '" ⧺ slug ⧺ "' not found")
agent_or_error slug (some id) = reply id

abbrev pub search_agents : String → Reply Json → Reply String
search_agents slug (error e) = error e
search_agents slug (reply (arr items)) = agent_or_error slug (find_agent slug items)
search_agents slug (reply null) = error "agents not array"
search_agents slug (reply _) = error "agents not array"

unfoldable pub resolve_agent_id : OpenfangClient → String → Reply String
unfolding find_agent
resolve_agent_id c slug = search_agents slug c.agents

-- The skill goes before the payload as a slash command.
unfoldable pub message_of : TaskEnvelope → String
message_of e = elim e.skill [
  | some skill ↦ "/skill " ⧺ skill ⧺ "\n\n" ⧺ e.payload
  | none ↦ e.payload
]

abbrev pub to_result : Reply MessageResponse → Reply DispatchResult
to_result (error e) = error e
to_result (reply m) = reply (record {
  response = m.response;
  input_tokens = as_i64 m.input_tokens;
  output_tokens = as_i64 m.output_tokens;
  cost_usd = unwrap_or m.cost_usd f64_zero;
})

abbrev pub read_message : Platform → OpenfangClient → HttpResponse → Reply DispatchResult
read_message p c (transport_error e) = error e
read_message p c (HttpResponse.response status body) =
    if is_success status
    then to_result (c.parse body)
    else error ("openfang send_message failed " ⧺ p.show_status status ⧺ ": " ⧺ body)

unfoldable pub dispatch : Platform → OpenfangClient → TaskEnvelope → String → Reply DispatchResult
unfolding message_of
dispatch p c e agent = read_message p c (c.send agent (message_of e))
