-- ===== src/Tests/Startup.antt =====
-- A restart with a task that a crash left half-written, one that runs and one that is done.
use open_mamba.Base.{◌≡◌, refl, true, false, some, none, [], ◌∷◌, codes, String, All, unwrap_or}
use open_mamba.Types.{DateTime}
use open_mamba.Lake.Startup.{StoredTask, Store, open_lake, purge_corrupted_rows}
use open_mamba.Lake.Startup.Purge.{Left, holding, purge_corrupted_rows-Left}
use open_mamba.Lake.Startup.Open.{sound, Opened, open_lake-Opened}
use open_mamba.Lake.Startup.SameDay.{IsOfDay, open_lake-same_day}
use open_mamba.Tests.Setting.{row, schedule}

-- Every time is of one day.
abbrev printed : DateTime → String
printed t = "2026-11-27 10:00:00+00"

abbrev rfc3339 : DateTime → String
rfc3339 t = "2026-11-27T09:00:00+00:00"

abbrev half_written : StoredTask
half_written = record { row = row 1 "coder" "pending" none; has_priority = false }

abbrev running : StoredTask
running = record { row = row 2 "coder" "running" none; has_priority = true }

abbrev settled : StoredTask
settled = record { row = row 3 "coder" "done" none; has_priority = true }

abbrev stored : Store
stored = record {
  tasks = some (half_written ∷ running ∷ settled ∷ []);
  schedules = some (schedule ∷ []);
  schedules_pk = true;
  task_file = none;
  schedule_file = none;
  clock = 10_000_000_000;
  faults = [];
}

-- The fifth statement of `purge_corrupted_rows`, the import, fails.
purge_corrupted_rows-Left_example :
    Left
      (half_written ∷ running ∷ settled ∷ [])
      (settled ∷ [])
      (purge_corrupted_rows printed rfc3339 (
        holding stored
          (half_written ∷ running ∷ settled ∷ [])
          (false ∷ false ∷ false ∷ false ∷ true ∷ [])))
      4
purge_corrupted_rows-Left_example =
    purge_corrupted_rows-Left printed rfc3339 stored (half_written ∷ running ∷ settled ∷ [])
      (false ∷ false ∷ false ∷ false ∷ true ∷ []) refl

open_lake-Opened_example :
    let (r, s') = open_lake printed rfc3339 (sound stored) in
    (r ≡ some tt) × Opened printed rfc3339 stored (settled ∷ []) s'
open_lake-Opened_example = open_lake-Opened printed rfc3339 stored

open_lake-same_day_example :
    All
      (λ q.
        ¬ IsOfDay printed rfc3339
          (λ t. codes "2026-11-27")
          (λ t. codes "10:00:00+00")
          (λ t. codes "09:00:00+00:00")
          (λ t. refl)
          (λ t. refl)
          stored.clock
          q)
      (unwrap_or (open_lake printed rfc3339 (sound stored)).1.tasks [])
open_lake-same_day_example =
    open_lake-same_day printed rfc3339 (λ t. codes "2026-11-27") (λ t. codes "10:00:00+00")
      (λ t. codes "09:00:00+00:00") (λ t. refl) (λ t. refl) stored
