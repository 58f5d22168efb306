-- ===== src/Lake/Store/Queue.antt =====
-- The order and the content of `list_pending`, and what a task that was put back must wait for.
use open_mamba.Base.{
  ℕ, ◌+◌, ◌<◌, ◌≤◌, ◌≡◌, ◌≢◌, ◌⊎◌, refl, true, false, some, List, [], ◌∷◌, ◌++◌, map, pos_part,
  neg_part, select, reject, sort_by, All, Perm, IsOrdered, sort_by-perm, sort_by-IsOrdered,
  Bool-cases, ltb, inl, inr, All-reject, All-sort_by, All-map, arith,
}
use open_mamba.Types.{Uuid, DateTime, seconds}
use open_mamba.Lake.Tables.{TaskRecord, Db}
use open_mamba.Lake.Exec.{ok, ready}
use open_mamba.Lake.Store.Rows.{find_task, has_id}
use open_mamba.Lake.Store.{list_pending, pending_ids, is_due, runs_before}
use open_mamba.Lake.Store.Reset.{record_dispatch_failure, retry_of}
use open_mamba.Lake.Store.Retry.{waiting_again, record_dispatch_failure_lem}

-- A more urgent priority, or the same one and no later a creation.
abbrev pub Before : TaskRecord → TaskRecord → Type 0
Before a b =
    (pos_part a.priority + neg_part b.priority < pos_part b.priority + neg_part a.priority)
    ⊎ ((a.priority ≡ b.priority) × (a.created_at ≤ b.created_at))

runs_before-true : (a b : TaskRecord) → runs_before a b ≡ true → Before a b
runs_before-true a b h = ground arith

runs_before-false : (a b : TaskRecord) → runs_before a b ≡ false → Before b a
runs_before-false a b h = ground arith

-- With no database failure `list_pending` changes nothing and returns the ids of exactly the rows
-- that are pending and whose `not_before` has passed, the most urgent and oldest first.
pub list_pending-IsOrdered :
    (d : Db) (t : DateTime) (ids : ℕ → Uuid)
    → (rows : List TaskRecord) × (list_pending (ready d t ids)
        ≡ (ok (map (λ r. r.id) rows), ready d t ids))
      × Perm rows (select (is_due t) d.task_envelopes)
      × IsOrdered Before rows
unfolding list_pending pending_ids
list_pending-IsOrdered d t ids =
    let due = select (is_due t) d.task_envelopes in
    (
      sort_by runs_before due,
      refl,
      sort_by-perm runs_before due,
      sort_by-IsOrdered Before runs_before runs_before-true runs_before-false due,
    )

-- A row that must wait is left out, and so are the other rows if their ids differ.
select-append :
    (id : Uuid) (t : DateTime) (rows : List TaskRecord) (r : TaskRecord)
    → All (λ s. s.id ≢ id) rows
    → is_due t r ≡ false
    → All (λ s. s.id ≢ id) (select (is_due t) (rows ++ r ∷ []))
select-append id t [] r others late = rw late tt
select-append id t (s ∷ rest) r others late = elim (Bool-cases (is_due t s)) [
  | inl e ↦ rw e (others.0, select-append id t rest r others.1 late)
  | inr e ↦ rw e (select-append id t rest r others.1 late)
]

waits :
    (t' nb : DateTime) (r : TaskRecord) (n : ℕ)
    → t' < nb
    → is_due t' (waiting_again r n (some nb)) ≡ false
waits t' nb r n h = ground arith

-- With no database failure, a task in the table whose dispatch failed on a transient error, with
-- retries left, is not handed out again before the backoff has passed: until then `list_pending` succeeds and does not contain it.
pub list_pending-record_dispatch_failure :
    (id : Uuid) (max_retries backoff_secs : ℕ) (d : Db) (t t' : DateTime) (ids : ℕ → Uuid)
    (r : TaskRecord)
    → find_task id d.task_envelopes ≡ some r
    → ltb (retry_of (some r)) max_retries ≡ true
    → t' < t + seconds backoff_secs
    → let w = (record_dispatch_failure id true max_retries backoff_secs (ready d t ids)).1 in
      (js : List Uuid) × ((list_pending (record w { clock = t' })).0 ≡ ok js) × All (λ j. j ≢ id) js
unfolding list_pending pending_ids
list_pending-record_dispatch_failure id max_retries backoff_secs d t t' ids r e more early =
    rw (record_dispatch_failure_lem id true max_retries backoff_secs d t ids r e, more)
      (
        _,
        refl,
        All-map (λ j. j ≢ id) (λ (s : TaskRecord). s.id) _
            (All-sort_by (λ (s : TaskRecord). s.id ≢ id) runs_before _
              (select-append id t' (reject (has_id id) d.task_envelopes)
                (waiting_again r (retry_of (some r) + 1) (some (t + seconds backoff_secs)))
                (All-reject (λ (s : TaskRecord). s.id ≢ id) (has_id id) d.task_envelopes
                  (λ s h. ground arith))
                (waits t' (t + seconds backoff_secs) r (retry_of (some r) + 1) early))),
      )
