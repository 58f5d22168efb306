-- ===== src/Lake/Store/Unique.antt =====
-- The ids of the tasks stay distinct, though the table has no PRIMARY KEY.
use open_mamba.Base.{
  ℕ, ◌+◌, ◌≤◌, ◌≡◌, refl, Bool, true, false, List, [], ◌∷◌, ◌++◌, select, update, reject, length,
  Bool-cases, inl, inr, eqb, eq_of_eqb, arith, leb, if◌then◌else◌,
}
use open_mamba.Types.{Uuid, TaskEnvelope}
use open_mamba.Lake.Tables.{TaskRecord, Db}
use open_mamba.Lake.Exec.{World}
use open_mamba.Lake.Store.{insert_envelope, envelope_row}
use open_mamba.Lake.Store.Rows.{has_id, on_tasks, replace_row}
use open_mamba.Lake.Store.Frame.{IsFrame}

-- How many rows have the id.
abbrev pub count : Uuid → List TaskRecord → ℕ
count j rows = length (select (has_id j) rows)

abbrev pub HasUniqueIds : Db → Type 0
HasUniqueIds d = (j : Uuid) → count j d.task_envelopes ≤ 1

count-update :
    (j id : Uuid) (f : TaskRecord → TaskRecord) (rows : List TaskRecord)
    → ((r : TaskRecord) → (f r).id ≡ r.id)
    → count j (update (has_id id) f rows) ≡ count j rows
count-update j id f [] keeps = refl
count-update j id f (r ∷ rows) keeps = elim (Bool-cases (has_id id r)) [
  | inl e ↦ rw (e, keeps r) (ground (arith, count-update j id f rows keeps))
  | inr e ↦ rw e (ground (arith, count-update j id f rows keeps))
]

-- What DELETE leaves, and what INSERT adds.
count-reject :
    (j id : Uuid) (rows : List TaskRecord)
    → count j (reject (has_id id) rows) ≡ (if eqb j id then 0 else count j rows)
count-reject j id [] = ground arith
count-reject j id (r ∷ rows) = ground (arith, count-reject j id rows)

count-append :
    (j : Uuid) (rows : List TaskRecord) (r : TaskRecord)
    → count j (rows ++ r ∷ []) ≡ count j rows + (if eqb r.id j then 1 else 0)
count-append j [] r = ground arith
count-append j (x ∷ rows) r = ground (arith, count-append j rows r)

-- Between the two statements no row has the id.
replaced-HasUniqueIds :
    (id : Uuid) (row : TaskRecord)
    → has_id id row ≡ true
    → (faults : List Bool) (w : World) → HasUniqueIds w.db
    → HasUniqueIds (replace_row id row (record w { faults = faults })).1.db
unfolding replace_row
replaced-HasUniqueIds id row own [] w h j = ground (
  arith,
  h j,
  count-reject j id w.db.task_envelopes,
  count-append j (reject (has_id id) w.db.task_envelopes) row,
  eq_of_eqb row.id id own,
)
replaced-HasUniqueIds id row own (true ∷ fs) w h j = h j
replaced-HasUniqueIds id row own (false ∷ []) w h j = ground (
  arith,
  h j,
  count-reject j id w.db.task_envelopes,
  count-append j (reject (has_id id) w.db.task_envelopes) row,
  eq_of_eqb row.id id own,
)
replaced-HasUniqueIds id row own (false ∷ true ∷ fs) w h j =
    ground (arith, h j, count-reject j id w.db.task_envelopes)
replaced-HasUniqueIds id row own (false ∷ false ∷ fs) w h j = ground (
  arith,
  h j,
  count-reject j id w.db.task_envelopes,
  count-append j (reject (has_id id) w.db.task_envelopes) row,
  eq_of_eqb row.id id own,
)

pub unique-IsFrame : (id : Uuid) → IsFrame id HasUniqueIds
unique-IsFrame id = record {
  updates =
      λ f keeps accounts d h j. ground (arith, h j, count-update j id f d.task_envelopes keeps);
  replaces =
      λ row own accounted. record { at = λ w h. replaced-HasUniqueIds id row own w.faults w h };
  bills = λ d bs h. h;
}

-- An INSERT of a new id.
module _ (e : TaskEnvelope) where
  inserted-HasUniqueIds :
      (d : Db)
      → count e.id d.task_envelopes ≡ 0
      → HasUniqueIds d
      → HasUniqueIds (on_tasks (λ rows. rows ++ envelope_row e ∷ []) d)
  unfolding envelope_row
  inserted-HasUniqueIds d fresh h j =
      ground (arith, h j, count-append j d.task_envelopes (envelope_row e), fresh, eq_of_eqb e.id j)

  unlocked :
      (faults : List Bool) (w : World)
      → count e.id w.db.task_envelopes ≡ 0
      → HasUniqueIds w.db
      → HasUniqueIds (insert_envelope e (record w { locked = false; faults = faults })).1.db
  unfolding insert_envelope
  unlocked [] w fresh h = elim (Bool-cases (leb e.priority 127)) [
    | inl fits ↦ rw fits (inserted-HasUniqueIds w.db fresh h)
    | inr over ↦ rw over h
  ]
  unlocked (true ∷ fs) w fresh h = elim (Bool-cases (leb e.priority 127)) [
    | inl fits ↦ rw fits h
    | inr over ↦ rw over h
  ]
  unlocked (false ∷ fs) w fresh h = elim (Bool-cases (leb e.priority 127)) [
    | inl fits ↦ rw fits (inserted-HasUniqueIds w.db fresh h)
    | inr over ↦ rw over h
  ]

  locked_or :
      (locked : Bool) (w : World)
      → count e.id w.db.task_envelopes ≡ 0
      → HasUniqueIds w.db
      → HasUniqueIds (insert_envelope e (record w { locked = locked })).1.db
  unfolding insert_envelope
  locked_or true w fresh h = h
  locked_or false w fresh h = unlocked w.faults w fresh h

  pub insert_envelope-HasUniqueIds :
      (w : World)
      → count e.id w.db.task_envelopes ≡ 0
      → HasUniqueIds w.db
      → HasUniqueIds (insert_envelope e w).1.db
  insert_envelope-HasUniqueIds w fresh h = locked_or w.locked w fresh h
