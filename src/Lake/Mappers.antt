-- ===== src/Lake/Mappers.antt =====
-- crates/mamba-lake/src/triggers.rs and workflows.rs: how the rows of a SELECT become records, column by
-- column.
pub mod Columns
pub mod Print
pub mod Read
use open_mamba.Base.{
  ℕ, ℤ, pos, String, Bool, Option, none, some, List, [], ◌∷◌, get_elem?, codes, true, false,
  if◌then◌else◌,
}
use open_mamba.Types.{Uuid, DateTime}
use open_mamba.Types.Json.{Json}
use open_mamba.Lake.Tables.{Webhook, Schedule, Workflow, WorkflowStep, WorkflowRun}
use open_mamba.Lake.Timestamps.{Text, Parsed, parsed, bad_timestamp, split_panic, triggers_parse_ts}

-- What a SELECT gives at one column; `other` is a value of a type that no `get` here asks for.
pub data Cell : Type 0 where
  null_cell : Cell
  text : String → Cell
  integer : ℤ → Cell
  unsigned : ℕ → Cell
  boolean : Bool → Cell
  other : Cell

abbrev pub Row : Type 0
Row = List Cell

-- A record, an error of the row, or a panic.
pub data Mapped (A : Type 0) : Type 0 where
  mapped : A → Mapped A
  row_error : Mapped A
  row_panic : Mapped A

infixl 5 ◌>>=◌
abbrev pub ◌>>=◌ : {A B : Type 0} → Mapped A → (A → Mapped B) → Mapped B
mapped a >>= f = f a
row_error >>= f = row_error
row_panic >>= f = row_panic

-- `r.get(i)?` at the types that the records ask for: NULL is an error but for an Option.
abbrev pub text_of : Option Cell → Mapped String
text_of (some (text s)) = mapped s
text_of _ = row_error

abbrev pub opt_text_of : Option Cell → Mapped (Option String)
opt_text_of (some (text s)) = mapped (some s)
opt_text_of (some null_cell) = mapped none
opt_text_of _ = row_error

abbrev pub integer_of : Option Cell → Mapped ℤ
integer_of (some (integer n)) = mapped n
integer_of _ = row_error

abbrev pub unsigned_of : Option Cell → Mapped ℕ
unsigned_of (some (unsigned n)) = mapped n
unsigned_of _ = row_error

abbrev pub boolean_of : Option Cell → Mapped Bool
boolean_of (some (boolean b)) = mapped b
boolean_of _ = row_error

-- An i32 that the code only ever sets to a number of steps.
abbrev step_of : Option Cell → Mapped ℕ
step_of (some (integer (pos n))) = mapped n
step_of _ = row_error

module _ (r : Row) where
  abbrev pub get_text : ℕ → Mapped String
  get_text i = text_of (get_elem? r i)

  abbrev pub get_opt_text : ℕ → Mapped (Option String)
  get_opt_text i = opt_text_of (get_elem? r i)

  abbrev pub get_integer : ℕ → Mapped ℤ
  get_integer i = integer_of (get_elem? r i)

  abbrev pub get_unsigned : ℕ → Mapped ℕ
  get_unsigned i = unsigned_of (get_elem? r i)

  abbrev pub get_step : ℕ → Mapped ℕ
  get_step i = step_of (get_elem? r i)

  abbrev pub get_boolean : ℕ → Mapped Bool
  get_boolean i = boolean_of (get_elem? r i)

-- A JSON text that is not of the type is an error of the row.
abbrev pub from_json : {A : Type 0} → Option A → Mapped A
from_json none = row_error
from_json (some a) = mapped a

abbrev pub parsed_time : Parsed → Mapped DateTime
parsed_time (parsed t) = mapped t
parsed_time (bad_timestamp s normalized) = row_error
parsed_time split_panic = row_panic

abbrev pub some_mapped : {A : Type 0} → Mapped A → Mapped (Option A)
some_mapped m = m >>= λ a. mapped (some a)

-- `str::is_empty`.
abbrev pub is_empty : String → Bool
is_empty String.[] = true
is_empty (String.◌∷◌ c s) = false

-- and_then(|s| if s.is_empty() { None } else { Uuid::parse_str(s).ok() })
abbrev pub task_id_of : (String → Option Uuid) → Option String → Option Uuid
task_id_of parse_str none = none
task_id_of parse_str (some s) = if is_empty s then none else parse_str s

-- `parse_from_rfc3339`.
module _ (parse_from_rfc3339 : Text → Option DateTime) where
  abbrev pub parse_ts : String → Mapped DateTime
  parse_ts s = parsed_time (triggers_parse_ts parse_from_rfc3339 (codes s))

  abbrev pub parse_opt_ts : Option String → Mapped (Option DateTime)
  parse_opt_ts none = mapped none
  parse_opt_ts (some s) = some_mapped (parse_ts s)

  unfoldable pub map_webhook : Row → Mapped Webhook
  map_webhook r = do
    hook_id ← get_text r 0
    project ← get_text r 1
    assigned_agent ← get_text r 2
    skill ← get_opt_text r 3
    model ← get_text r 4
    payload_template ← get_text r 5
    priority ← get_integer r 6
    enabled ← get_boolean r 7
    created ← get_text r 8
    created_at ← parse_ts created
    last_fired ← get_opt_text r 9
    last_fired_at ← parse_opt_ts last_fired
    fire_count ← get_unsigned r 10
    mapped (record {
      hook_id = hook_id;
      project = project;
      assigned_agent = assigned_agent;
      skill = skill;
      model = model;
      payload_template = payload_template;
      priority = priority;
      enabled = enabled;
      created_at = created_at;
      last_fired_at = last_fired_at;
      fire_count = fire_count;
    })

  unfoldable pub map_schedule : Row → Mapped Schedule
  map_schedule r = do
    id ← get_text r 0
    cron_expr ← get_text r 1
    project ← get_text r 2
    assigned_agent ← get_text r 3
    skill ← get_opt_text r 4
    model ← get_text r 5
    payload ← get_text r 6
    priority ← get_integer r 7
    enabled ← get_boolean r 8
    next_run ← get_text r 9
    next_run_at ← parse_ts next_run
    last_fired ← get_opt_text r 10
    last_fired_at ← parse_opt_ts last_fired
    fire_count ← get_unsigned r 11
    created ← get_text r 12
    created_at ← parse_ts created
    mapped (record {
      id = id;
      cron_expr = cron_expr;
      project = project;
      assigned_agent = assigned_agent;
      skill = skill;
      model = model;
      payload = payload;
      priority = priority;
      enabled = enabled;
      next_run_at = next_run_at;
      last_fired_at = last_fired_at;
      fire_count = fire_count;
      created_at = created_at;
    })

  -- serde_json at the steps.
  unfoldable pub map_workflow : (String → Option (List WorkflowStep)) → Row → Mapped Workflow
  map_workflow steps_from_str r = do
    steps_json ← get_text r 2
    steps ← from_json (steps_from_str steps_json)
    id ← get_text r 0
    name ← get_text r 1
    enabled ← get_boolean r 3
    created ← get_text r 4
    created_at ← parse_ts created
    last_run ← get_opt_text r 5
    last_run_at ← parse_opt_ts last_run
    run_count ← get_unsigned r 6
    mapped (record {
      id = id;
      name = name;
      steps = steps;
      enabled = enabled;
      created_at = created_at;
      last_run_at = last_run_at;
      run_count = run_count;
    })

  -- serde_json at the outputs, and `Uuid::parse_str`.
  unfoldable pub map_run :
      (String → Option (List Json)) → (String → Option Uuid) → Row → Mapped WorkflowRun
  map_run outputs_from_str parse_str r = do
    outputs_json ← get_text r 4
    outputs ← from_json (outputs_from_str outputs_json)
    task_id_str ← get_opt_text r 9
    run_id ← get_text r 0
    workflow_id ← get_text r 1
    status ← get_text r 2
    current_step ← get_step r 3
    initial_input ← get_opt_text r 5
    started ← get_text r 6
    started_at ← parse_ts started
    completed ← get_opt_text r 7
    completed_at ← parse_opt_ts completed
    error ← get_opt_text r 8
    mapped (record {
      run_id = run_id;
      workflow_id = workflow_id;
      status = status;
      current_step = current_step;
      outputs = outputs;
      initial_input = initial_input;
      started_at = started_at;
      completed_at = completed_at;
      error = error;
      current_task_id = task_id_of parse_str task_id_str;
    })
