-- ===== src/Api/Scheduler/Once.antt =====
-- A whole round of the scheduler, each due schedule in its turn.
use open_mamba.Base.{
  ℕ, suc, ◌≡◌, refl, ap, ◌∙◌, String, Bool, true, false, ◌&&◌, ◌||◌, eq_refl, List, [], ◌∷◌, ◌++◌,
  leb, update, select, sort_by, insert_by, any, All, All-sort_by, All-of_select, Bool-cases, inl,
  inr, ◌<◌, arith,
}
use mathlib.Core.List.{append_assoc, append-nil}
use open_mamba.Types.{Uuid, DateTime}
use open_mamba.Platform.{Platform, reply}
use open_mamba.Lake.Tables.{Schedule, TaskRecord, Db}
use open_mamba.Lake.Exec.{ok, ready}
use open_mamba.Lake.Triggers.{is_schedule, is_due, due_schedules}
use open_mamba.Api.Scheduler.{fire_all, tick, next_after, max_zero}
use open_mamba.Api.Scheduler.Firing.{fired, fired_row, fire-advance_schedule}

-- The rows of the tasks that schedules submit, the ids drawn one after the other.
abbrev pub fired_tasks : DateTime → (ℕ → Uuid) → List Schedule → List TaskRecord
fired_tasks t ids [] = []
fired_tasks t ids (s ∷ rest) = fired_row (ids 0) t s ∷ fired_tasks t (λ n. ids (suc n)) rest

-- The expression has this next time, which is later, and the priority fits its column.
abbrev pub Fires : Platform → DateTime → (String → DateTime) → Schedule → Type 0
Fires p t next s =
    (next_after p s.cron_expr t ≡ reply (next s.cron_expr))
    × (t < next s.cron_expr)
    × (leb (max_zero s.priority) 127 ≡ true)

or_left : (a b c : Bool) → (a || (b || c)) ≡ (b || (a || c))
or_left true true c = refl
or_left true false c = refl
or_left false b c = refl

module _ {A : Type 0} (q : A → Bool) (le : A → A → Bool) where
  any-insert_by : (x : A) (ys : List A) → any q (insert_by le x ys) ≡ any q (x ∷ ys)
  any-insert_by x [] = refl
  any-insert_by x (y ∷ ys) = elim (Bool-cases (le x y)) [
    | inl e ↦ rw e refl
    | inr e ↦ rw e (ap (λ b. q y || b) (any-insert_by x ys) ∙ or_left (q y) (q x) (any q ys))
  ]

  any-sort_by : (xs : List A) → any q (sort_by le xs) ≡ any q xs
  any-sort_by [] = refl
  any-sort_by (x ∷ xs) = any-insert_by x (sort_by le xs) ∙ ap (λ b. q x || b) (any-sort_by xs)

-- The row is of one of the schedules.
abbrev IsOfAny : List Schedule → Schedule → Type 0
IsOfAny ss r = any (λ s. is_schedule s.id r) ss ≡ true

weaken : (s : Schedule) (ss : List Schedule) (r : Schedule) → IsOfAny ss r → IsOfAny (s ∷ ss) r
weaken s ss r e = elim (Bool-cases (is_schedule s.id r)) [
  | inl f ↦ rw f refl
  | inr f ↦ rw (f, e) refl
]

All-weaken :
    (s : Schedule) (ss rows : List Schedule) → All (IsOfAny ss) rows → All (IsOfAny (s ∷ ss)) rows
All-weaken s ss [] h = tt
All-weaken s ss (r ∷ rows) h = (weaken s ss r h.0, All-weaken s ss rows h.1)

self-IsOfAny : (rows : List Schedule) → All (IsOfAny rows) rows
self-IsOfAny [] = tt
self-IsOfAny (r ∷ rows) = (rw (eq_refl r.id) refl, All-weaken r rows rows (self-IsOfAny rows))

All-map_to :
    {A : Type 0} {P Q : A → Type 0} → ((x : A) → P x → Q x) → (xs : List A) → All P xs → All Q xs
All-map_to f [] h = tt
All-map_to f (x ∷ xs) h = (f x h.0, All-map_to f xs h.1)

module _ (p : Platform) (t : DateTime) (next : String → DateTime) where
  -- A row that is due is of one of the schedules still to be fired.
  abbrev IsCovered : List Schedule → Schedule → Type 0
  IsCovered ss r = is_due t r ≡ true → IsOfAny ss r

  due-IsCovered :
      (le : Schedule → Schedule → Bool) (rows : List Schedule)
      → All (IsCovered (sort_by le (select (is_due t) rows))) rows
  due-IsCovered le rows =
      All-of_select (IsOfAny (sort_by le (select (is_due t) rows))) (is_due t) rows (
        All-map_to (λ r e. any-sort_by (λ s. is_schedule s.id r) le (select (is_due t) rows) ∙ e)
          (select (is_due t) rows) (self-IsOfAny (select (is_due t) rows)))

  select-none : (rows : List Schedule) → All (IsCovered []) rows → select (is_due t) rows ≡ []
  select-none [] h = refl
  select-none (r ∷ rows) h = elim (Bool-cases (is_due t r)) [
    | inl e ↦ let no = h.0 e in absurd cc
    | inr e ↦ rw e (select-none rows h.1)
  ]

  and_false : (b : Bool) → (b && false) ≡ false
  and_false true = refl
  and_false false = refl

  not_yet : (n : ℕ) → t < n → leb n t ≡ false
  not_yet n later = ground arith

  not_due :
      (s r : Schedule) → t < next s.cron_expr → is_due t (fired t (next s.cron_expr) r) ≡ false
  not_due s r later = rw (not_yet (next s.cron_expr) later) (and_false r.enabled)

  fired-IsCovered :
      (s : Schedule) (ss rows : List Schedule)
      → t < next s.cron_expr
      → All (IsCovered (s ∷ ss)) rows
      → All (IsCovered ss) (update (is_schedule s.id) (fired t (next s.cron_expr)) rows)
  fired-IsCovered s ss [] later h = tt
  fired-IsCovered s ss (r ∷ rows) later h = elim (Bool-cases (is_schedule s.id r)) [
    | inl e ↦
        rw e
          ((λ due. let quiet = not_due s r later in absurd cc), fired-IsCovered s ss rows later h.1)
    | inr e ↦ rw e ((λ due. (rw e at h.0 due)), fired-IsCovered s ss rows later h.1)
  ]

  abbrev fired_rows : List Schedule → List Schedule → List Schedule
  fired_rows [] rows = rows
  fired_rows (s ∷ rest) rows =
      fired_rows rest (update (is_schedule s.id) (fired t (next s.cron_expr)) rows)

  abbrev drawn : (ℕ → Uuid) → List Schedule → ℕ → Uuid
  drawn ids [] = ids
  drawn ids (s ∷ rest) = drawn (λ n. ids (suc n)) rest

  abbrev fired_db : (ℕ → Uuid) → List Schedule → Db → Db
  fired_db ids ss d = record d {
    task_envelopes = d.task_envelopes ++ fired_tasks t ids ss;
    schedules = fired_rows ss d.schedules;
  }

  fire_all-ready :
      (ss : List Schedule) (d : Db) (ids : ℕ → Uuid)
      → All (Fires p t next) ss
      → fire_all p ss (ready d t ids) ≡ (ok tt, ready (fired_db ids ss d) t (drawn ids ss))
  unfolding fire_all
  fire_all-ready [] d ids h = rw (append-nil d.task_envelopes) refl
  fire_all-ready (s ∷ rest) d ids h =
      rw
        (
          fire-advance_schedule p s d t (next s.cron_expr) ids h.0.0 h.0.2,
          fire_all-ready rest _ (λ n. ids (suc n)) h.1,
          append_assoc d.task_envelopes (fired_row (ids 0) t s ∷ [])
              (fired_tasks t (λ n. ids (suc n)) rest),
        )
        refl

  fired_rows-IsCovered :
      (ss rows : List Schedule)
      → All (Fires p t next) ss
      → All (IsCovered ss) rows
      → All (IsCovered []) (fired_rows ss rows)
  fired_rows-IsCovered [] rows h c = c
  fired_rows-IsCovered (s ∷ rest) rows h c =
      fired_rows-IsCovered rest _ h.1 (fired-IsCovered s rest rows h.0.1 c)

  -- The due schedules, the earliest first.
  abbrev pub due_of : Db → List Schedule
  due_of d = sort_by (λ a b. leb a.next_run_at b.next_run_at) (select (is_due t) d.schedules)

  -- If the expression of each due schedule has a next time, later than now, and its priority is at
  -- most 127, then a round without database failures ends without an error, appends one task for each
  -- due schedule, in the order of their times and each with an id of its own draw, and afterwards
  -- `due_schedules` finds none at the same time.
  pub tick-due_schedules :
      (d : Db) (ids : ℕ → Uuid)
      → All (Fires p t next) (select (is_due t) d.schedules)
      → (d' : Db) × (ids' : ℕ → Uuid) × (tick p (ready d t ids) ≡ (ok tt, ready d' t ids'))
        × (d'.task_envelopes ≡ d.task_envelopes ++ fired_tasks t ids (due_of d))
        × (due_schedules (ready d' t ids') ≡ (ok [], ready d' t ids'))
  unfolding tick due_schedules
  tick-due_schedules d ids h =
      let fires =
        All-sort_by (Fires p t next) (λ a b. leb a.next_run_at b.next_run_at)
          (select (is_due t) d.schedules) h in
      let none_due = select-none _ (
        fired_rows-IsCovered (due_of d) d.schedules fires
          (due-IsCovered (λ a b. leb a.next_run_at b.next_run_at) d.schedules)) in
      (
        fired_db ids (due_of d) d,
        drawn ids (due_of d),
        fire_all-ready (due_of d) d ids fires,
        refl,
        rw none_due refl,
      )
