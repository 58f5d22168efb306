-- ===== src/Bus/Queue/Totals.antt =====
-- The sums over the queue.
use open_mamba.Base.{
  ℕ, pos, ◌≡◌, Bool, true, ◌==◌, List, [], ◌∷◌, map, All, All-append, All-update, reject-All,
  Bool-cases, inl, inr, leb,
}
use open_mamba.Types.{Uuid, DateTime, F64, TaskEnvelope}
use open_mamba.Lake.Tables.{TaskRecord, Db}
use open_mamba.Lake.Exec.{World, ok, ready, execute}
use open_mamba.Lake.Keeps.{Keeps, Keeps-bind, Keeps-execute, Keeps-with_conn, Keeps-if, Keeps-fail}
use open_mamba.Lake.Store.{insert_envelope, envelope_row}
use open_mamba.Lake.Store.Rows.{has_id, replace_row}
use open_mamba.Lake.Store.Accounted.{is_accounted}
use open_mamba.Lake.Store.Frame.{IsFrame}
use open_mamba.Lake.Analytics.{
  ProjectConsumption, GlobalConsumption, per_project_consumption, global_consumption, finished,
}
use open_mamba.Lake.Analytics.Groups.{total}
use open_mamba.Lake.Analytics.Sums.{IsCounted, per_project_consumption-total}
use open_mamba.Bus.Queue.{Reach, Reach-IsKept}

abbrev pub IsAccounted : TaskRecord → Type 0
IsAccounted r = is_accounted r ≡ true

-- No task is done without its tokens.
abbrev pub AllAccounted : Db → Type 0
AllAccounted d = All IsAccounted d.task_envelopes

accounted-IsFrame : (id : Uuid) → IsFrame id AllAccounted
unfolding replace_row
accounted-IsFrame id = record {
  updates = λ f keeps accounts d h.
      All-update IsAccounted (has_id id) f d.task_envelopes (λ r is. accounts r) h;
  replaces = λ row own accounted.
      Keeps-bind (execute _) _
        (Keeps-execute _ λ d h. reject-All IsAccounted (has_id id) d.task_envelopes h)
        λ u.
          Keeps-execute _
            λ d h. All-append IsAccounted d.task_envelopes (row ∷ []) h (accounted, tt);
  bills = λ d bs h. h;
}

insert_envelope-AllAccounted :
    (e : TaskEnvelope)
    → is_accounted (envelope_row e) ≡ true
    → Keeps AllAccounted (insert_envelope e)
unfolding insert_envelope
insert_envelope-AllAccounted e accounted = Keeps-with_conn _ (
    Keeps-if (leb e.priority 127) _ _
      (Keeps-execute _
        λ d h. All-append IsAccounted d.task_envelopes (envelope_row e ∷ []) h (accounted, tt))
      (Keeps-fail _))

Reach-AllAccounted : (start w : World) → Reach start w → AllAccounted start.db → AllAccounted w.db
Reach-AllAccounted = Reach-IsKept (record {
  frame = accounted-IsFrame;
  inserts = λ e w fresh accounted. (insert_envelope-AllAccounted e accounted).at w;
  reads = λ d d' is h. rw is h;
})

finished-IsCounted : (rows : List TaskRecord) → All IsAccounted rows → All IsCounted (finished rows)
finished-IsCounted [] h = tt
finished-IsCounted (r ∷ rows) h = elim (Bool-cases (r.status == "done")) [
  | inl e ↦ rw e (rw e at h.0, finished-IsCounted rows h.1)
  | inr e ↦ rw e (finished-IsCounted rows h.1)
]

-- Take any world that the queue reaches from one where no task is done without its tokens, as from an
-- empty table: by submissions of new ids, which are not done without their tokens, dispatches, single calls
-- of dispatches, retries, resets, rounds of the reaper and changes elsewhere, whatever SQL statements fail
-- in them. On its tables, once no statement fails, `per_project_consumption` and `global_consumption` both
-- answer, and the sums by project add up to those of all: the tokens of the projects to total_tokens, and
-- their tasks to total_tasks, however costs are added and compared.
pub Reach-per_project_consumption :
    (f64_add : F64 → F64 → F64) (f64_ge : F64 → F64 → Bool) (start w : World) (t : DateTime)
    (ids : ℕ → Uuid)
    → Reach start w
    → AllAccounted start.db
    → (ps : List ProjectConsumption) × (g : GlobalConsumption) × (per_project_consumption f64_add
          f64_ge
          (ready w.db t ids)
        ≡ (ok ps, ready w.db t ids))
      × (global_consumption f64_add f64_ge (ready w.db t ids) ≡ (ok g, ready w.db t ids))
      × (total (map (λ q. q.tokens) ps) ≡ g.total_tokens)
      × (total (map (λ q. pos q.tasks) ps) ≡ pos g.total_tasks)
Reach-per_project_consumption f64_add f64_ge start w t ids r h =
    per_project_consumption-total f64_add f64_ge w.db t ids
      (finished-IsCounted w.db.task_envelopes (Reach-AllAccounted start w r h))
