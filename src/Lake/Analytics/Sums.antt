-- ===== src/Lake/Analytics/Sums.antt =====
-- crates/mamba-lake/src/analytics.rs: the sums by project against the sums of all.
use open_mamba.Base.{
  ℕ, ℤ, pos, ◌+ℤ◌, ◌≡◌, refl, ap, sym, ◌∙◌, String, Bool, true, Option, none, some, List, [], ◌∷◌,
  map, select, sort_by, length, unwrap_or, is_some, ◌&&◌, arith, ◌==◌, All, +ℤ_parts, eq_of_parts,
}
use mathlib.Core.List.{map-map}
use mathlib.Core.Path.{fun_ext}
use open_mamba.Types.{DateTime, Uuid, F64}
use open_mamba.Lake.Tables.{Db, TaskRecord}
use open_mamba.Lake.Exec.{ok, ready}
use open_mamba.Lake.Analytics.{
  GlobalConsumption, ProjectConsumption, null_add, skip_add, sum, finished, row_tokens, keys,
  consumption, global_consumption, project_group, project_consumption, per_project_consumption,
}
use open_mamba.Lake.Analytics.Groups.{
  +ℤ-zero, +ℤ_swap, total, total-sort_by, total-keys, group_total,
}

-- A row of which both token counts are set.
abbrev pub IsCounted : TaskRecord → Type 0
IsCounted r = (is_some r.tokens_in && is_some r.tokens_out) ≡ true

abbrev amount : Option ℤ → ℤ
amount o = unwrap_or o (pos 0)

amount-skip_add : (a b : Option ℤ) → amount (skip_add a b) ≡ amount a +ℤ amount b
amount-skip_add none none = sym (+ℤ-zero (pos 0))
amount-skip_add none (some b) = eq_of_parts _ _ (omega (arith, +ℤ_parts (pos 0) b))
amount-skip_add (some a) none = sym (+ℤ-zero a)
amount-skip_add (some a) (some b) = refl

amount-null_add :
    (a b : Option ℤ)
    → (is_some a && is_some b) ≡ true
    → amount (null_add a b) ≡ amount a +ℤ amount b
amount-null_add none b h = absurd cc
amount-null_add (some a) none h = absurd cc
amount-null_add (some a) (some b) h = refl

is_some-skip_add :
    (a b s t : Option ℤ)
    → (is_some a && is_some b) ≡ true
    → (is_some (skip_add a s) && is_some (skip_add b t)) ≡ true
is_some-skip_add none b s t h = absurd cc
is_some-skip_add (some a) none s t h = absurd cc
is_some-skip_add (some a) (some b) none none h = refl
is_some-skip_add (some a) (some b) none (some t) h = refl
is_some-skip_add (some a) (some b) (some s) none h = refl
is_some-skip_add (some a) (some b) (some s) (some t) h = refl

amount-sum :
    (f : TaskRecord → Option ℤ) (rows : List TaskRecord)
    → amount (sum f rows) ≡ total (map (λ r. amount (f r)) rows)
unfolding sum
amount-sum f [] = refl
amount-sum f (r ∷ rows) =
    amount-skip_add (f r) (sum f rows) ∙ ap (λ t. amount (f r) +ℤ t) (amount-sum f rows)

total-row_tokens :
    (rows : List TaskRecord)
    → All IsCounted rows
    → total (map (λ r. amount (row_tokens r)) rows)
      ≡ total (map (λ (r : TaskRecord). amount r.tokens_in) rows)
        +ℤ total (map (λ (r : TaskRecord). amount r.tokens_out) rows)
total-row_tokens [] h = sym (+ℤ-zero (pos 0))
total-row_tokens (r ∷ rows) h =
    rw (amount-null_add r.tokens_in r.tokens_out h.0, total-row_tokens rows h.1)
      (+ℤ_swap (amount r.tokens_in) (amount r.tokens_out)
        (total (map (λ (r : TaskRecord). amount r.tokens_in) rows))
        (total (map (λ (r : TaskRecord). amount r.tokens_out) rows)))

amount-sums :
    (rows : List TaskRecord)
    → All IsCounted rows
    → amount (null_add (sum (λ r. r.tokens_in) rows) (sum (λ r. r.tokens_out) rows))
      ≡ amount (sum (λ r. r.tokens_in) rows) +ℤ amount (sum (λ r. r.tokens_out) rows)
unfolding sum
amount-sums [] h = sym (+ℤ-zero (pos 0))
amount-sums (r ∷ rows) h = amount-null_add _ _ (
    is_some-skip_add r.tokens_in r.tokens_out (sum (λ r. r.tokens_in) rows)
      (sum (λ r. r.tokens_out) rows) h.0)

total-length : {A : Type 0} (rows : List A) → total (map (λ _. pos 1) rows) ≡ pos (length rows)
total-length [] = refl
total-length (r ∷ rows) =
    ap (λ t. pos 1 +ℤ t) (total-length rows)
    ∙ eq_of_parts _ _ (omega (arith, +ℤ_parts (pos 1) (pos (length rows))))

abbrev project_of : TaskRecord → String
project_of r = r.project

-- The tokens and the tasks of the projects add up.
module _ (f64_add : F64 → F64 → F64) (f64_ge : F64 → F64 → Bool) where
  tokens-project_group :
      (rows : List TaskRecord) (p : String)
      → (project_group f64_add f64_ge rows p).tokens
        ≡ group_total project_of (λ r. amount (row_tokens r)) rows p
  tokens-project_group rows p = amount-sum row_tokens (select (λ r. r.project == p) rows)

  tasks-project_group :
      (rows : List TaskRecord) (p : String)
      → pos (project_group f64_add f64_ge rows p).tasks ≡ group_total project_of (λ _. pos 1) rows p
  tasks-project_group rows p = sym (total-length (select (λ r. r.project == p) rows))

  total-tokens :
      (rows : List TaskRecord)
      → All IsCounted rows
      → total (map (λ q. q.tokens) (project_consumption f64_add f64_ge rows))
        ≡ (consumption f64_add f64_ge rows).total_tokens
  unfolding project_consumption consumption
  total-tokens rows counted =
      ap total (
        map-map (λ (q : ProjectConsumption). q.tokens) (project_group f64_add f64_ge rows)
          (keys ◌==◌ (map project_of rows)))
      ∙ ap (λ f. total (map f (keys ◌==◌ (map project_of rows))))
          (fun_ext (tokens-project_group rows))
      ∙ total-keys project_of (λ r. amount (row_tokens r)) rows
      ∙ total-row_tokens rows counted
      ∙ sym (
          rw
            (
              amount-sums rows counted,
              amount-sum (λ r. r.tokens_in) rows,
              amount-sum (λ r. r.tokens_out) rows,
            )
            refl)

  total-tasks :
      (rows : List TaskRecord)
      → total (map (λ q. pos q.tasks) (project_consumption f64_add f64_ge rows))
        ≡ pos (consumption f64_add f64_ge rows).total_tasks
  unfolding project_consumption consumption
  total-tasks rows =
      ap total (
        map-map (λ (q : ProjectConsumption). pos q.tasks) (project_group f64_add f64_ge rows)
          (keys ◌==◌ (map project_of rows)))
      ∙ ap (λ f. total (map f (keys ◌==◌ (map project_of rows))))
          (fun_ext (tasks-project_group rows))
      ∙ total-keys project_of (λ _. pos 1) rows
      ∙ total-length rows

  -- Where every finished row has both its token counts set, `per_project_consumption` and
  -- `global_consumption` both answer, and the sums by project add up to those of all: the tokens of
  -- the projects to total_tokens, and their tasks to total_tasks, in whatever order the projects are
  -- listed and however costs are added and compared.
  pub per_project_consumption-total :
      (d : Db) (t : DateTime) (ids : ℕ → Uuid)
      → All IsCounted (finished d.task_envelopes)
      → (ps : List ProjectConsumption) × (g : GlobalConsumption) × (per_project_consumption f64_add
            f64_ge
            (ready d t ids)
          ≡ (ok ps, ready d t ids))
        × (global_consumption f64_add f64_ge (ready d t ids) ≡ (ok g, ready d t ids))
        × (total (map (λ q. q.tokens) ps) ≡ g.total_tokens)
        × (total (map (λ q. pos q.tasks) ps) ≡ pos g.total_tasks)
  unfolding per_project_consumption global_consumption
  per_project_consumption-total d t ids counted =
      let rows = finished d.task_envelopes in
      let by_cost = λ (a b : ProjectConsumption). f64_ge a.cost_usd b.cost_usd in
      let groups = project_consumption f64_add f64_ge rows in
      (
        sort_by by_cost groups,
        consumption f64_add f64_ge rows,
        refl,
        refl,
        total-sort_by (λ q. q.tokens) by_cost groups ∙ total-tokens rows counted,
        total-sort_by (λ q. pos q.tasks) by_cost groups ∙ total-tasks rows,
      )
