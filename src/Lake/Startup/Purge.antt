-- ===== src/Lake/Startup/Purge.antt =====
-- What is left of task_envelopes when a statement of `purge_corrupted_rows` fails.
use open_mamba.Base.{
  ℕ, zero, suc, any, ◌≡◌, refl, String, Bool, true, false, none, some, List, [], ◌∷◌, eqb, select,
  length, Bool-cases, inl, inr, suc_not_zero,
}
use mathlib.Core.Path.{subst, sym}
use open_mamba.Types.{DateTime}
use open_mamba.Lake.Startup.{
  StoredTask, Store, recreate_tasks, cutoff, is_good, is_corrupted, purge_corrupted_rows,
}

-- How many statements run before the first that fails.
abbrev pub first_fault : List Bool → ℕ
first_fault [] = 5
first_fault (true ∷ fs) = 0
first_fault (false ∷ fs) = suc (first_fault fs)

-- The table and the file by the number of statements that ran: the count, the export, DROP, CREATE and
-- the import.
abbrev pub Left : List StoredTask → List StoredTask → Store → ℕ → Type 0
Left rows kept s zero = s.tasks ≡ some rows
Left rows kept s (suc zero) = s.tasks ≡ some rows
Left rows kept s (suc (suc zero)) = (s.tasks ≡ some rows) × (s.task_file ≡ some kept)
Left rows kept s (suc (suc (suc zero))) = (s.tasks ≡ none) × (s.task_file ≡ some kept)
Left rows kept s (suc (suc (suc (suc zero)))) = (s.tasks ≡ some []) × (s.task_file ≡ none)
Left rows kept s (suc (suc (suc (suc (suc n))))) = (s.tasks ≡ some kept) × (s.task_file ≡ none)

abbrev pub holding : Store → List StoredTask → List Bool → Store
holding s rows faults = record s { tasks = some rows; faults = faults }

length-any :
    {A : Type 0} (test : A → Bool) (xs : List A)
    → any test xs ≡ true
    → eqb (length (select test xs)) 0 ≡ false
length-any test [] h = absurd cc
length-any test (x ∷ xs) h = elim (Bool-cases (test x)) [
  | inl e ↦ rw e (suc_not_zero (length (select test xs)))
  | inr e ↦ rw e (length-any test xs (rw e at h))
]

recreate_tasks-Left :
    (keep : StoredTask → Bool) (s : Store) (rows : List StoredTask) (faults : List Bool)
    → Left rows
        (select keep rows)
        (recreate_tasks keep (holding s rows faults)).1
        (suc (first_fault faults))
recreate_tasks-Left keep s rows [] = (refl, refl)
recreate_tasks-Left keep s rows (true ∷ fs) = refl
recreate_tasks-Left keep s rows (false ∷ []) = (refl, refl)
recreate_tasks-Left keep s rows (false ∷ true ∷ fs) = (refl, refl)
recreate_tasks-Left keep s rows (false ∷ false ∷ []) = (refl, refl)
recreate_tasks-Left keep s rows (false ∷ false ∷ true ∷ fs) = (refl, refl)
recreate_tasks-Left keep s rows (false ∷ false ∷ false ∷ []) = (refl, refl)
recreate_tasks-Left keep s rows (false ∷ false ∷ false ∷ true ∷ fs) = (refl, refl)
recreate_tasks-Left keep s rows (false ∷ false ∷ false ∷ false ∷ fs) = (refl, refl)

module _ (timestamp_text to_rfc3339 : DateTime → String) where
  -- The rows that the purge is to keep.
  abbrev pub kept_rows : Store → List StoredTask → List StoredTask
  kept_rows s =
      select (is_good timestamp_text to_rfc3339 (cutoff timestamp_text to_rfc3339 s.clock))

  purges :
      (s : Store) (rows : List StoredTask) (faults : List Bool)
      → any (is_corrupted timestamp_text to_rfc3339 (cutoff timestamp_text to_rfc3339 s.clock)) rows
        ≡ true
      → purge_corrupted_rows timestamp_text to_rfc3339 (holding s rows (false ∷ faults))
        ≡ (recreate_tasks
            (is_good timestamp_text to_rfc3339 (cutoff timestamp_text to_rfc3339 s.clock))
            (holding s rows faults)).1
  unfolding purge_corrupted_rows
  purges s rows faults h = rw (length-any _ rows h) refl

  -- If some row is corrupted, then what `purge_corrupted_rows` leaves is told by its first failure. Of the
  -- count, the export or DROP: the table as it was, and in the last case the rows to keep in the file
  -- too. Of CREATE: no table, and the rows to keep in the file. Of the import: an empty table and no
  -- file, so that the rows are lost. Of none: just the rows to keep, and no file.
  pub purge_corrupted_rows-Left :
      (s : Store) (rows : List StoredTask) (faults : List Bool)
      → any (is_corrupted timestamp_text to_rfc3339 (cutoff timestamp_text to_rfc3339 s.clock)) rows
        ≡ true
      → Left rows
          (kept_rows s rows)
          (purge_corrupted_rows timestamp_text to_rfc3339 (holding s rows faults))
          (first_fault faults)
  unfolding purge_corrupted_rows
  purge_corrupted_rows-Left s rows [] h = rw (length-any _ rows h) (refl, refl)
  purge_corrupted_rows-Left s rows (true ∷ fs) h = refl
  purge_corrupted_rows-Left s rows (false ∷ fs) h =
      subst (λ s'. Left rows (kept_rows s rows) s' (suc (first_fault fs)))
        (sym (purges s rows fs h))
        (recreate_tasks-Left
          (is_good timestamp_text to_rfc3339 (cutoff timestamp_text to_rfc3339 s.clock)) s rows fs)
