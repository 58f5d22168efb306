-- ===== src/Lake/Startup.antt =====
-- crates/mamba-lake/src/store.rs, `Lake::open` and the two repairs that it runs: the PRIMARY KEY of
-- the table schedules, and the rows of task_envelopes that a crash left behind. Both export a table
-- to a Parquet file, drop it, create it again and import the file. A table may be missing here, and
-- each statement may fail; the other tables are only created if they are not there.
pub mod Purge
pub mod Open
pub mod SameDay
use open_mamba.Base.{
  ℕ, ◌-◌, ◌*◌, String, Bool, true, false, not, ◌&&◌, ◌||◌, Option, none, some, List, [], ◌∷◌, ◌++◌,
  ◌==◌, codes, ltb, eqb, select, length, unwrap_or, if◌then◌else◌,
}
use open_mamba.Types.{DateTime, seconds}
use open_mamba.Lake.Tables.{TaskRecord, Schedule}

-- A row as the file holds it: a crash may leave `priority` NULL.
pub record StoredTask : Type 0 where
  pub row : TaskRecord
  pub has_priority : Bool

-- The database file and the two Parquet files; `none` is a table or a file that is not there.
-- `faults` says of the coming statements which fail.
pub record Store : Type 0 where
  pub tasks : Option (List StoredTask)
  pub schedules : Option (List Schedule)
  pub schedules_pk : Bool
  pub task_file : Option (List StoredTask)
  pub schedule_file : Option (List Schedule)
  pub clock : DateTime
  pub faults : List Bool

abbrev pub Sql : Type 0 → Type 0
Sql A = Store → Option A × Store

abbrev after : {A B : Type 0} → Option A → (A → Sql B) → Sql B
after none f s = (none, s)
after (some a) f s = f a s

infixl 5 ◌>>=◌ ◌>>◌
-- `?`, and `if let Err(e) = … { return; }`.
abbrev pub ◌>>=◌ : {A B : Type 0} → Sql A → (A → Sql B) → Sql B
◌>>=◌ m f s = let (r, s') = m s in after r f s'

abbrev pub ◌>>◌ : {A B : Type 0} → Sql A → Sql B → Sql B
m >> k = m >>= λ _. k

abbrev applied : {A : Type 0} → Option (A × Store) → Sql A
applied none s = (none, s)
applied (some (a, s')) s = (some a, s')

abbrev run_statement : {A : Type 0} → (Store → Option (A × Store)) → List Bool → Sql A
run_statement f [] s = applied (f s) s
run_statement f (true ∷ rest) s = (none, record s { faults = rest })
run_statement f (false ∷ rest) s = let s' = record s { faults = rest } in applied (f s') s'

-- One SQL statement: it fails and changes nothing, or it runs whole.
abbrev pub statement : {A : Type 0} → (Store → Option (A × Store)) → Sql A
statement f s = run_statement f s.faults s

-- Of two texts, as VARCHAR is compared.
abbrev pub text_lt : List ℕ → List ℕ → Bool
text_lt [] [] = false
text_lt [] (b ∷ bs) = true
text_lt (a ∷ as') [] = false
text_lt (a ∷ as') (b ∷ bs) = if ltb a b then true else if ltb b a then false else text_lt as' bs

abbrev Change : Type 0
Change = Store → Option (Unit {0} × Store)

-- COPY TO, DROP TABLE, CREATE TABLE, INSERT … FROM read_parquet, on task_envelopes.
abbrev copied_tasks : (StoredTask → Bool) → Option (List StoredTask) → Change
copied_tasks keep none s = none
copied_tasks keep (some rows) s = some (tt, record s { task_file = some (select keep rows) })

abbrev created_tasks : Option (List StoredTask) → Change
created_tasks none s = some (tt, record s { tasks = some [] })
created_tasks (some rows) s = none

abbrev imported_tasks : Option (List StoredTask) → Option (List StoredTask) → Change
imported_tasks (some rows) (some file) s = some (tt, record s { tasks = some (rows ++ file) })
imported_tasks (some rows) none s = none
imported_tasks none file s = none

-- The same on schedules.
abbrev copied_schedules : Option (List Schedule) → Change
copied_schedules none s = none
copied_schedules (some rows) s = some (tt, record s { schedule_file = some rows })

abbrev dropped_schedules : Option (List Schedule) → Change
dropped_schedules none s = none
dropped_schedules (some rows) s = some (tt, record s { schedules = none; schedules_pk = false })

abbrev created_schedules : Option (List Schedule) → Change
created_schedules none s = some (tt, record s { schedules = some [] })
created_schedules (some rows) s = none

abbrev imported_schedules : Option (List Schedule) → Option (List Schedule) → Change
imported_schedules (some rows) (some file) s =
    some (tt, record s { schedules = some (rows ++ file) })
imported_schedules (some rows) none s = none
imported_schedules none file s = none

-- The import, and `remove_file` whether it failed or not.
abbrev import_schedules : Sql Unit
import_schedules s =
    let (r, s') = statement (λ s. imported_schedules s.schedules s.schedule_file s) s in
    (r, record s' { schedule_file = none })

abbrev recreate_schedules : Sql Unit
recreate_schedules =
    statement (λ s. copied_schedules s.schedules s)
    >> statement (λ s. dropped_schedules s.schedules s)
    >> statement (λ s. created_schedules s.schedules s)
    >> import_schedules

abbrev when_pk : Option Bool → Store → Store
when_pk (some true) s = (recreate_schedules s).1
when_pk (some false) s = s
when_pk none s = s

unfoldable pub migrate_schedules_remove_pk : Store → Store
migrate_schedules_remove_pk s =
    let (has_pk, s') = statement (λ s. some (s.schedules_pk, s)) s in when_pk has_pk s'

abbrev import_tasks : Sql Unit
import_tasks s =
    let (r, s') = statement (λ s. imported_tasks s.tasks s.task_file s) s in
    (r, record s' { task_file = none })

abbrev pub recreate_tasks : (StoredTask → Bool) → Sql Unit
recreate_tasks keep =
    statement (λ s. copied_tasks keep s.tasks s)
    >> statement (λ s. some (tt, record s { tasks = none }))
    >> statement (λ s. created_tasks s.tasks s)
    >> import_tasks

abbrev counted : (StoredTask → Bool) → Option (List StoredTask) → Store → Option (ℕ × Store)
counted test none s = none
counted test (some rows) s = some (length (select test rows), s)

-- CREATE TABLE IF NOT EXISTS.
abbrev pub init_sql : Sql Unit
init_sql =
    statement (λ s. some (tt, record s { tasks = some (unwrap_or s.tasks []) }))
    >> statement (λ s. some (tt, record s { schedules = some (unwrap_or s.schedules []) }))

-- CAST(… AS VARCHAR) of a TIMESTAMPTZ, and `to_rfc3339`.
module _ (timestamp_text to_rfc3339 : DateTime → String) where
  abbrev pub cutoff : DateTime → String
  cutoff t = to_rfc3339 (t - seconds (2 * 3600))

  abbrev dispatched_before : String → Option DateTime → Bool
  dispatched_before limit none = false
  dispatched_before limit (some t) = text_lt (codes (timestamp_text t)) (codes limit)

  abbrev pub is_zombie : String → TaskRecord → Bool
  is_zombie limit r = r.status == "running" && dispatched_before limit r.dispatched_at

  abbrev pub is_corrupted : String → StoredTask → Bool
  is_corrupted limit q = not q.has_priority || is_zombie limit q.row

  abbrev pub is_good : String → StoredTask → Bool
  is_good limit q = q.has_priority && not (is_zombie limit q.row)

  abbrev pub purge_some : String → Option ℕ → Store → Store
  purge_some limit n s = if eqb (unwrap_or n 0) 0 then s else (recreate_tasks (is_good limit) s).1

  unfoldable pub purge_corrupted_rows : Store → Store
  purge_corrupted_rows s =
      let limit = cutoff s.clock in
      let (n, s') = statement (λ s. counted (is_corrupted limit) s.tasks s) s in
      purge_some limit n s'

  unfoldable pub open_lake : Sql Unit
  unfolding migrate_schedules_remove_pk purge_corrupted_rows
  open_lake = statement (λ s. some (tt, s)) >> init_sql >> λ s.
      (some tt, purge_corrupted_rows (migrate_schedules_remove_pk s))

-- A database in memory, with no file before it.
unfoldable pub open_memory : Sql Unit
open_memory =
    statement (λ s. some (tt, record s { tasks = none; schedules = none; schedules_pk = false }))
    >> init_sql
