-- ===== src/Lake/Schema/Upgrade.antt =====
-- The task table of a database from an earlier version.
use open_mamba.Base.{
  ℕ, zero, suc, eqb, eq_of_eqb, eq_refl, ◌≡◌, refl, ap, String, true, ◌||◌, Option, some, none,
  List, [], ◌∷◌, ◌++◌, ◌≤◌, take, length, inl, inr, Bool-cases, arith,
}
use open_mamba.Lake.Schema.{
  Column, optional, defaulting, varchar, integer, timestamptz, has_column, add_column,
  alter_task_envelopes, init_task_envelopes, task_envelopes_init, task_envelopes_create_sql,
}
use open_mamba.Lake.Schema.Init.{schedules, schedules_recreated}

has_column-append :
    (n : String) (columns rest : List Column)
    → has_column n (columns ++ rest) ≡ has_column n columns || has_column n rest
has_column-append n [] rest = refl
has_column-append n (c ∷ columns) rest = ground (arith, has_column-append n columns rest)

add_column-has_column :
    (n : String) (c : Column) (columns : List Column)
    → has_column n columns ≡ true
    → has_column n (add_column c columns) ≡ true
unfolding add_column
add_column-has_column n c columns h = ground (arith, has_column-append n columns (c ∷ []))

has_column-add_column :
    (c : Column) (columns : List Column) → has_column c.name (add_column c columns) ≡ true
unfolding add_column
has_column-add_column c columns =
    ground (arith, has_column-append c.name columns (c ∷ []), eq_refl c.name)

add_column_present :
    (c : Column) (columns : List Column)
    → has_column c.name columns ≡ true
    → add_column c columns ≡ columns
unfolding add_column
add_column_present c columns h = rw h refl

alter-alter :
    (columns : List Column)
    → alter_task_envelopes (alter_task_envelopes columns) ≡ alter_task_envelopes columns
unfolding alter_task_envelopes
alter-alter columns =
    let response = optional "response" varchar in
    let retry_count = defaulting "0" (optional "retry_count" integer) in
    let not_before = optional "not_before" timestamptz in
    let one = add_column response columns in
    let two = add_column retry_count one in
    rw
      (
        add_column_present response (add_column not_before two) (
            add_column-has_column "response" not_before two (
              add_column-has_column "response" retry_count one
                (has_column-add_column response columns))),
        add_column_present retry_count (add_column not_before two) (
            add_column-has_column "retry_count" not_before two
              (has_column-add_column retry_count one)),
        add_column_present not_before (add_column not_before two)
            (has_column-add_column not_before two),
      )
      refl

take_all : (n : ℕ) (columns : List Column) → length columns ≤ n → take n columns ≡ columns
take_all zero [] h = refl
take_all zero (c ∷ columns) h = absurd (omega arith)
take_all (suc n) [] h = refl
take_all (suc n) (c ∷ columns) h = ap (λ l. c ∷ l) (take_all n columns (omega arith))

-- An earlier version of the table has the first columns of it, 18 of them or more.
earlier :
    (n : ℕ)
    → 18 ≤ n
    → alter_task_envelopes (take n task_envelopes_create_sql) ≡ task_envelopes_create_sql
unfolding alter_task_envelopes add_column
earlier n h = elim (Bool-cases (eqb n 18)) [
  | inl e ↦ rw (eq_of_eqb n 18 e) refl
  | inr e ↦ elim (Bool-cases (eqb n 19)) [
    | inl e' ↦ rw (eq_of_eqb n 19 e') refl
    | inr e' ↦ elim (Bool-cases (eqb n 20)) [
      | inl e'' ↦ rw (eq_of_eqb n 20 e'') refl
      | inr e'' ↦ rw (take_all n task_envelopes_create_sql (ground (arith, e, e', e'', h))) refl
    ]
  ]
]

twice :
    (table : Option (List Column))
    → init_task_envelopes (some (init_task_envelopes table)) ≡ init_task_envelopes table
unfolding init_task_envelopes
twice none = alter-alter task_envelopes_init
twice (some columns) = alter-alter columns

-- The script of the start gives the task table the columns with which a purge creates it again, with their
-- order, types and defaults, so that a row which is exported by position is imported into the same columns:
-- where there was no table, and where there was one with its first `n` columns, 18 or more. On any table,
-- it changes nothing the second time. The schedules of the script are those that the migration creates.
pub init_task_envelopes-create :
    (n : ℕ) (table : Option (List Column))
    → 18 ≤ n
    → (init_task_envelopes none ≡ task_envelopes_create_sql)
      × (init_task_envelopes (some (take n task_envelopes_create_sql)) ≡ task_envelopes_create_sql)
      × (init_task_envelopes (some (init_task_envelopes table)) ≡ init_task_envelopes table)
      × (schedules_recreated ≡ schedules)
unfolding init_task_envelopes alter_task_envelopes add_column
init_task_envelopes-create n table h = (refl, earlier n h, twice table, refl)
