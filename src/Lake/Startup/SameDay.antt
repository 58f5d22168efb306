-- ===== src/Lake/Startup/SameDay.antt =====
-- The age of a running row at `Lake::open` is judged by two texts: a TIMESTAMPTZ as DuckDB prints it,
-- with a blank between the date and the time, and one of `to_rfc3339`, with a T.
use open_mamba.Base.{
  ℕ, ◌≡◌, refl, ◌-◌, ◌*◌, String, Bool, true, false, ◌&&◌, not, some, List, [], ◌∷◌, ◌++◌, codes,
  ltb, select, unwrap_or, All, Bool-cases, inl, inr, arith,
}
use open_mamba.Types.{DateTime, seconds}
use open_mamba.Lake.Startup.{StoredTask, Store, text_lt, is_good, is_zombie, cutoff, open_lake}
use open_mamba.Lake.Startup.Open.{sound, open_lake-Opened}

select-All :
    {A : Type 0} (p : A → Bool) (P : A → Type 0)
    → ((x : A) → p x ≡ true → P x)
    → (xs : List A) → All P (select p xs)
select-All p P h [] = tt
select-All p P h (x ∷ xs) = elim (Bool-cases (p x)) [
  | inl e ↦ rw e (h x e, select-All p P h xs)
  | inr e ↦ rw e (select-All p P h xs)
]

text_lt-blank : (date a b : List ℕ) → text_lt (date ++ (32 ∷ a)) (date ++ (84 ∷ b)) ≡ true
text_lt-blank [] a b = refl
text_lt-blank (c ∷ date) a b = rw (irrefl c) (text_lt-blank date a b)
  where
    irrefl : (c : ℕ) → ltb c c ≡ false
    irrefl c = ground arith

module _ (timestamp_text to_rfc3339 : DateTime → String) (date time zoned : DateTime → List ℕ)
    (blank : (t : DateTime) → codes (timestamp_text t) ≡ date t ++ (32 ∷ time t))
    (letter : (t : DateTime) → codes (to_rfc3339 t) ≡ date t ++ (84 ∷ zoned t)) where
  -- The row is running, and was dispatched on the day of the cutoff.
  abbrev pub IsOfDay : DateTime → StoredTask → Type 0
  IsOfDay t q =
      (d : DateTime) × (q.row.status ≡ "running")
      × (q.row.dispatched_at ≡ some d)
      × (date d ≡ date (t - seconds (2 * 3600)))

  zombie_of_day :
      (t : DateTime) (q : StoredTask)
      → IsOfDay t q
      → is_zombie timestamp_text to_rfc3339 (cutoff timestamp_text to_rfc3339 t) q.row ≡ true
  zombie_of_day t q (d, running, at, same) =
      rw (running, at, blank d, letter (t - seconds (2 * 3600)), same)
        (text_lt-blank (date (t - seconds (2 * 3600))) (time d) (zoned (t - seconds (2 * 3600))))

  unkept :
      (t : DateTime) (q : StoredTask)
      → is_good timestamp_text to_rfc3339 (cutoff timestamp_text to_rfc3339 t) q ≡ true
      → ¬ IsOfDay t q
  unkept t q good on_day =
      let zombie = zombie_of_day t q on_day in
      let no_zombie = fails q.has_priority _ good in absurd cc
    where
      fails : (a b : Bool) → (a && not b) ≡ true → b ≡ false
      fails true false h = refl
      fails true true h = absurd cc
      fails false b h = absurd cc

  -- If DuckDB prints a time as its date, a blank and more, and `to_rfc3339` as its date, a T and
  -- more, then after an `open` of which no statement fails no row is left that was running and was
  -- dispatched on the date of two hours ago, at whatever time of that day: a task that started a
  -- minute before the restart is gone with the zombies.
  pub open_lake-same_day :
      (s : Store)
      → All
          (λ q. ¬ IsOfDay s.clock q)
          (unwrap_or (open_lake timestamp_text to_rfc3339 (sound s)).1.tasks [])
  open_lake-same_day s = rw (open_lake-Opened timestamp_text to_rfc3339 s).1.0 (
      select-All (is_good timestamp_text to_rfc3339 (cutoff timestamp_text to_rfc3339 s.clock))
        (λ q. ¬ IsOfDay s.clock q) (unkept s.clock) (unwrap_or s.tasks []))
