-- ===== src/Lake/Startup/Open.antt =====
-- What `Lake::open` leaves where no statement fails.
use open_mamba.Base.{
  ◌≡◌, refl, sym, ap, ◌∙◌, String, Bool, true, false, not, ◌&&◌, ◌||◌, none, some, List, [], ◌∷◌,
  eqb, eq_of_eqb, select, unwrap_or, length, Bool-cases, inl, inr, arith,
}
use open_mamba.Types.{DateTime}
use open_mamba.Lake.Startup.{
  StoredTask, Store, cutoff, is_good, is_corrupted, is_zombie, purge_some, open_lake,
}

select_all :
    {A : Type 0} (good bad : A → Bool)
    → ((x : A) → good x ≡ not (bad x))
    → (xs : List A) → length (select bad xs) ≡ 0
    → select good xs ≡ xs
select_all good bad dual [] h = refl
select_all good bad dual (x ∷ xs) h = elim (Bool-cases (bad x)) [
  | inl e ↦ absurd (ground (arith, e, h))
  | inr e ↦ rw (dual x, e) (ap (λ ys. x ∷ ys) (select_all good bad dual xs (ground (arith, e, h))))
]

select_again :
    {A : Type 0} (good : A → Bool) (xs : List A) → select good (select good xs) ≡ select good xs
select_again good [] = refl
select_again good (x ∷ xs) = elim (Bool-cases (good x)) [
  | inl e ↦ rw (e, e) (ap (λ ys. x ∷ ys) (select_again good xs))
  | inr e ↦ rw e (select_again good xs)
]

good_dual : (a b : Bool) → (a && not b) ≡ not (not a || b)
good_dual true true = refl
good_dual true false = refl
good_dual false b = refl

-- A store of which no statement fails.
abbrev pub sound : Store → Store
sound s = record s { faults = [] }

module _ (timestamp_text to_rfc3339 : DateTime → String) where
  abbrev pub good_rows : Store → List StoredTask
  good_rows s =
      select (is_good timestamp_text to_rfc3339 (cutoff timestamp_text to_rfc3339 s.clock))
        (unwrap_or s.tasks [])

  -- The table has just these rows, and schedules its own and no PRIMARY KEY.
  abbrev pub Opened : Store → List StoredTask → Store → Type 0
  Opened s rows s' =
      (s'.tasks ≡ some rows)
      × (s'.schedules ≡ some (unwrap_or s.schedules []))
      × (s'.schedules_pk ≡ false)
      × (s'.clock ≡ s.clock)

  purge_some-Opened :
      (s : Store) (rows : List StoredTask)
      → let limit = cutoff timestamp_text to_rfc3339 s.clock in
        Opened s (select (is_good timestamp_text to_rfc3339 limit) rows) (
          purge_some timestamp_text to_rfc3339 limit
            (some (length (select (is_corrupted timestamp_text to_rfc3339 limit) rows)))
            (record s {
              tasks = some rows;
              schedules = some (unwrap_or s.schedules []);
              schedules_pk = false;
              faults = [];
            }))
  purge_some-Opened s rows =
      let limit = cutoff timestamp_text to_rfc3339 s.clock in
      elim (Bool-cases
        (eqb (length (select (is_corrupted timestamp_text to_rfc3339 limit) rows)) 0)) [
          | inl e ↦ rw e (
            ap some (
                sym (
                  select_all (is_good timestamp_text to_rfc3339 limit)
                    (is_corrupted timestamp_text to_rfc3339 limit)
                    (λ q.
                      good_dual q.has_priority (is_zombie timestamp_text to_rfc3339 limit q.row))
                    rows (eq_of_eqb _ 0 e))),
            refl,
            refl,
            refl,
          )
          | inr e ↦ rw e (refl, refl, refl, refl)
        ]

  opened :
      (s : Store) (pk : Bool)
      → let (r, s') =
          open_lake timestamp_text to_rfc3339 (record s { schedules_pk = pk; faults = [] }) in
        (r ≡ some tt) × Opened s (good_rows s) s'
  unfolding open_lake
  opened s true =
      (refl, purge_some-Opened (record s { schedule_file = none }) (unwrap_or s.tasks []))
  opened s false = (refl, purge_some-Opened s (unwrap_or s.tasks []))

  -- Where no statement fails, `open` succeeds, with or without a PRIMARY KEY on schedules and with
  -- or without the two tables: the table of tasks has the rows to keep, each whole and in the order
  -- it had, the table of schedules has every row it had, and no PRIMARY KEY is left.
  pub open_lake-Opened :
      (s : Store)
      → let (r, s') = open_lake timestamp_text to_rfc3339 (sound s) in
        (r ≡ some tt) × Opened s (good_rows s) s'
  open_lake-Opened s = opened s s.schedules_pk

  kept_again : (s s' : Store) → Opened s (good_rows s) s' → good_rows s' ≡ good_rows s
  kept_again s s' h =
      rw (h.0, h.3)
        (select_again (is_good timestamp_text to_rfc3339 (cutoff timestamp_text to_rfc3339 s.clock))
          (unwrap_or s.tasks []))

  -- Opening a second time at the same time of the clock, no statement failing, changes neither table.
  open_lake-open_lake :
      (s : Store)
      → let once = (open_lake timestamp_text to_rfc3339 (sound s)).1 in
        let twice = (open_lake timestamp_text to_rfc3339 (sound once)).1 in
        (twice.tasks ≡ once.tasks) × (twice.schedules ≡ once.schedules)
  open_lake-open_lake s =
      let once = (open_lake timestamp_text to_rfc3339 (sound s)).1 in
      let first = (open_lake-Opened s).1 in
      let second = (open_lake-Opened once).1 in
      (
        second.0 ∙ ap some (kept_again s once first) ∙ sym first.0,
        second.1 ∙ ap (λ o. some (unwrap_or o [])) first.1 ∙ sym first.1,
      )
