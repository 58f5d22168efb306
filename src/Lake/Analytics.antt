-- ===== src/Lake/Analytics.antt =====
-- crates/mamba-lake/src/analytics.rs: what the finished tasks consumed, in all, by project and by
-- agent and model. Sums of costs are sums of `f64`, a parameter.
pub mod Groups
pub mod Sums
use open_mamba.Base.{
  ℕ, ℤ, pos, ◌+ℤ◌, String, Bool, ◌&&◌, Option, none, some, List, [], ◌∷◌, map, ◌==◌, select,
  sort_by, length, unwrap_or, ◌+◌, ◌*◌, ◌/◌, leb, eqb, if◌then◌else◌,
}
use open_mamba.Types.{DateTime, seconds, F64, f64_zero}
use open_mamba.Lake.Tables.{TaskRecord}
use open_mamba.Lake.Exec.{Exec, now, query, with_conn, ◌>>=◌}

pub record GlobalConsumption : Type 0 where
  pub total_tasks : ℕ
  pub total_tokens_in : ℤ
  pub total_tokens_out : ℤ
  pub total_tokens : ℤ
  pub total_cost_usd : F64

pub record ProjectConsumption : Type 0 where
  pub project : String
  pub tasks : ℕ
  pub tokens : ℤ
  pub cost_usd : F64

pub record AgentConsumption : Type 0 where
  pub agent_slug : String
  pub model : String
  pub tasks : ℕ
  pub tokens : ℤ
  pub cost_usd : F64

pub record DailyBurn : Type 0 where
  pub day : ℕ
  pub tokens : ℤ
  pub cost_usd : F64
  pub tasks : ℕ

-- a + b of SQL: NULL if either is.
abbrev pub null_add : Option ℤ → Option ℤ → Option ℤ
null_add none b = none
null_add (some a) none = none
null_add (some a) (some b) = some (a +ℤ b)

-- SUM skips NULL, and is NULL if there is nothing else.
abbrev pub skip_add : Option ℤ → Option ℤ → Option ℤ
skip_add none b = b
skip_add (some a) none = some a
skip_add (some a) (some b) = some (a +ℤ b)

unfoldable pub sum : (TaskRecord → Option ℤ) → List TaskRecord → Option ℤ
sum f [] = none
sum f (r ∷ rows) = skip_add (f r) (sum f rows)

abbrev pub finished : List TaskRecord → List TaskRecord
finished = select λ r. r.status == "done"

abbrev pub row_tokens : TaskRecord → Option ℤ
row_tokens r = null_add r.tokens_in r.tokens_out

-- The keys of GROUP BY, each once.
unfoldable pub add_key : {K : Type 0} → (K → K → Bool) → K → List K → List K
add_key same k [] = k ∷ []
add_key same k (j ∷ ks) = j ∷ elim (same j k) [ Bool.true ↦ ks | Bool.false ↦ add_key same k ks ]

unfoldable pub keys : {K : Type 0} → (K → K → Bool) → List K → List K
unfolding add_key
keys same [] = []
keys same (k ∷ ks) = add_key same k (keys same ks)

-- The sum of two `f64`, and whether the first is at least the second.
module _ (f64_add : F64 → F64 → F64) (f64_ge : F64 → F64 → Bool) where
  abbrev pub skip_add_cost : Option F64 → Option F64 → Option F64
  skip_add_cost none b = b
  skip_add_cost (some a) none = some a
  skip_add_cost (some a) (some b) = some (f64_add a b)

  unfoldable pub sum_cost : List TaskRecord → Option F64
  sum_cost [] = none
  sum_cost (r ∷ rows) = skip_add_cost r.cost_usd (sum_cost rows)

  unfoldable pub consumption : List TaskRecord → GlobalConsumption
  unfolding sum sum_cost
  consumption rows = record {
    total_tasks = length rows;
    total_tokens_in = unwrap_or (sum (λ r. r.tokens_in) rows) (pos 0);
    total_tokens_out = unwrap_or (sum (λ r. r.tokens_out) rows) (pos 0);
    total_tokens =
        unwrap_or (null_add (sum (λ r. r.tokens_in) rows) (sum (λ r. r.tokens_out) rows)) (pos 0);
    total_cost_usd = unwrap_or (sum_cost rows) f64_zero;
  }

  unfoldable pub global_consumption : Exec GlobalConsumption
  unfolding consumption
  global_consumption = with_conn (query λ d. consumption (finished d.task_envelopes))

  abbrev pub project_group : List TaskRecord → String → ProjectConsumption
  project_group rows p =
      let mine = select (λ (r : TaskRecord). r.project == p) rows in
      record {
        project = p;
        tasks = length mine;
        tokens = unwrap_or (sum row_tokens mine) (pos 0);
        cost_usd = unwrap_or (sum_cost mine) f64_zero;
      }

  unfoldable pub project_consumption : List TaskRecord → List ProjectConsumption
  unfolding keys sum sum_cost
  project_consumption rows =
      map (project_group rows) (keys ◌==◌ (map (λ (r : TaskRecord). r.project) rows))

  unfoldable pub per_project_consumption : Exec (List ProjectConsumption)
  unfolding project_consumption
  per_project_consumption = with_conn (
      query λ d.
        sort_by (λ a b. f64_ge a.cost_usd b.cost_usd)
          (project_consumption (finished d.task_envelopes)))

  abbrev pub same_agent : String × String → String × String → Bool
  same_agent (a, m) (b, n) = a == b && m == n

  abbrev pub agent_group : List TaskRecord → String × String → AgentConsumption
  agent_group rows (a, m) =
      let mine = select (λ (r : TaskRecord). r.assigned_agent == a && r.model == m) rows in
      record {
        agent_slug = a;
        model = m;
        tasks = length mine;
        tokens = unwrap_or (sum row_tokens mine) (pos 0);
        cost_usd = unwrap_or (sum_cost mine) f64_zero;
      }

  unfoldable pub per_agent_consumption : Exec (List AgentConsumption)
  unfolding keys sum sum_cost
  per_agent_consumption = with_conn (
      query λ d.
        let rows = finished d.task_envelopes in
        sort_by (λ a b. f64_ge a.cost_usd b.cost_usd)
          (map (agent_group rows)
            (keys same_agent (map (λ (r : TaskRecord). (r.assigned_agent, r.model)) rows))))

  -- The day of a time, in UTC, as a number that orders as its text does.
  abbrev pub day_of : DateTime → ℕ
  day_of t = t / (86_400 * 1_000_000)

  -- completed_at >= now() - INTERVAL 30 DAYS, and its day.
  abbrev pub recent_day : DateTime → TaskRecord → Option ℕ
  recent_day t r = elim r.completed_at [
    | none ↦ none
    | some c ↦ if leb t (c + seconds (30 * 86_400)) then some (day_of c) else none
  ]

  abbrev pub on_day : DateTime → ℕ → TaskRecord → Bool
  on_day t day r = elim (recent_day t r) [ none ↦ Bool.false | some n ↦ eqb n day ]

  unfoldable pub recent_days : DateTime → List TaskRecord → List ℕ
  recent_days t [] = []
  recent_days t (r ∷ rows) = elim (recent_day t r) [
    | none ↦ recent_days t rows
    | some n ↦ n ∷ recent_days t rows
  ]

  abbrev pub day_group : DateTime → List TaskRecord → ℕ → DailyBurn
  day_group t rows day =
      let mine = select (on_day t day) rows in
      record {
        day = day;
        tokens = unwrap_or (sum row_tokens mine) (pos 0);
        cost_usd = unwrap_or (sum_cost mine) f64_zero;
        tasks = length mine;
      }

  unfoldable pub daily_burn_last_30 : Exec (List DailyBurn)
  unfolding keys sum sum_cost recent_days
  daily_burn_last_30 = with_conn do
    t ← now
    query λ d.
        let rows = finished d.task_envelopes in
        sort_by (λ a b. leb b.day a.day) (map (day_group t rows) (keys eqb (recent_days t rows)))
