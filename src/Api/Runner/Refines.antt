-- ===== src/Api/Runner/Refines.antt =====
-- The advancer writes runs only as the specification allows.
use open_mamba.Base.{
  ℕ, ◌+◌, ◌<◌, ◌≡◌, refl, String, true, false, Option, none, some, List, [], ◌∷◌, ◌==◌, leb,
  lt_of_leb, unwrap_or, get_elem?, All, All-take, All-select, All-sort_by, Bool-cases, inl, inr,
}
use open_mamba.Types.{Uuid, DateTime, TaskEnvelope}
use open_mamba.Types.Json.{Json, str, null}
use open_mamba.Platform.{Platform}
use open_mamba.Lake.Tables.{TaskRow, Workflow, WorkflowStep, WorkflowRun, Db}
use open_mamba.Lake.Exec.{World, attempt, now, new_v4}
use open_mamba.Lake.Keeps.{
  Keeps, keeps_rules, Keeps-if, Keeps-bind, Keeps-attempt, Keeps-pure, Keeps-now, Keeps-new_v4,
  Keeps-crash, Keeps-fail, bind_read-db,
}
use open_mamba.Lake.Store.{get_task, get_response}
use open_mamba.Lake.Workflows.{get_workflow, list_runs, update_run, of_workflow}
use open_mamba.Bus.Dispatch.{submit}
use open_mamba.Api.Runner.{
  ReviewVerdict, approved, changes_requested, blocked, unknown, push_output, output_entry,
  failed_run, excerpt, fail_blocked, step_envelope, fixup_payload, dispatch_fixup, start_fixup,
  fixup_rounds_used, max_fixup_rounds, on_changes_requested, next_step, advance_in, linear_advance,
  on_verdict, parse_reviewer_verdict, advance, abort_run, settle_task, check_task, tick_run,
  tick_runs, tick, build_step_envelope,
}
use open_mamba.Api.Runner.Spec.{
  RunStep, moves, finishes, rewinds, fails, aborts, asks_changes, is_live,
}

-- What the writes of one run keep, if each is a step of that run.
abbrev pub Writes : (Db → Type 0) → WorkflowRun → Type 0
Writes P run = (r : WorkflowRun) → RunStep run r → Keeps P (update_run r)

module _ {P : Db → Type 0} (p : Platform) (submits : (e : TaskEnvelope) → Keeps P (submit e)) where
  module _ (run : WorkflowRun) (writes : Writes P run) where
    fail_blocked-Keeps :
        (o : Json) (text : Option String) → Keeps P (fail_blocked (push_output run o) text)
    fail_blocked-Keeps o none = Keeps-crash
    fail_blocked-Keeps o (some text) =
        Keeps-bind now _ Keeps-now
          λ t. writes (failed_run (push_output run o) _ t) (fails o _ t refl)

    dispatch_fixup-Keeps :
        (o : Json) (rounds : ℕ) (feedback : String) (coder : Option WorkflowStep)
        → fixup_rounds_used run < max_fixup_rounds
        → Keeps P (dispatch_fixup p (push_output run o) rounds feedback coder)
    dispatch_fixup-Keeps o rounds feedback none left = Keeps-crash
    dispatch_fixup-Keeps o rounds feedback (some coder) left =
        Keeps-bind new_v4 _ Keeps-new_v4 λ id. Keeps-bind now _ Keeps-now λ t.
          Keeps-bind (submit (again id t)) (λ u. update_run (rewound id)) (submits (again id t))
            λ u. writes (rewound id) (rewinds o id left refl)
      where
        again : Uuid → DateTime → TaskEnvelope
        again id t =
            step_envelope id t coder
              (p.json_to_string (fixup_payload coder (push_output run o) (rounds + 1) feedback))

        rewound : Uuid → WorkflowRun
        rewound id = record (push_output run o) { current_step = 0; current_task_id = some id }

    start_fixup-Keeps :
        (o : Json) (rounds : ℕ) (feedback : String) (w : Option Workflow)
        → fixup_rounds_used run < max_fixup_rounds
        → Keeps P (start_fixup p (push_output run o) rounds feedback w)
    start_fixup-Keeps o rounds feedback none left = Keeps-fail "workflow definition missing"
    start_fixup-Keeps o rounds feedback (some w) left =
        dispatch_fixup-Keeps o rounds feedback (get_elem? w.steps 0) left

    next_step-Keeps :
        (o : Json) (step : Option WorkflowStep)
        → asks_changes o ≡ false
        → Keeps P (next_step p (push_output run o) (run.current_step + 1) step)
    unfolding build_step_envelope
    next_step-Keeps o none other =
        Keeps-bind now _ Keeps-now λ t. writes _ (finishes o t other refl)
    next_step-Keeps o (some step) other =
        Keeps-bind (build_step_envelope p step (push_output run o)) _ (search keeps_rules) λ e.
          Keeps-bind (submit e) _ (submits e) λ u.
            writes
              (record (push_output run o) {
                current_step = run.current_step + 1;
                current_task_id = some e.id;
              })
              (moves o e.id other refl)

    advance_in-Keeps :
        (o : Json) (w : Option Workflow)
        → asks_changes o ≡ false
        → Keeps P (advance_in p (push_output run o) w)
    advance_in-Keeps o none other =
        Keeps-bind now _ Keeps-now
          λ t. writes (failed_run (push_output run o) _ t) (fails o _ t refl)
    advance_in-Keeps o (some w) other =
        next_step-Keeps o (get_elem? w.steps (run.current_step + 1)) other

    linear_advance-Keeps :
        (task : TaskRow) (verdict : Json) (response : String)
        → asks_changes (output_entry p run task task.assigned_agent verdict response) ≡ false
        → Keeps P (linear_advance p run task verdict response)
    unfolding get_workflow
    linear_advance-Keeps task verdict response other =
        Keeps-bind (get_workflow run.workflow_id) _ (search keeps_rules) λ w.
          advance_in-Keeps (output_entry p run task task.assigned_agent verdict response) w other

    on_changes_requested-Keeps :
        (task : TaskRow) (response : String) → Keeps P (on_changes_requested p run task response)
    unfolding get_workflow
    on_changes_requested-Keeps task response = elim (Bool-cases (leb 3 (fixup_rounds_used run))) [
      | inl spent ↦ rw spent (
          Keeps-bind now _ Keeps-now
            λ t. writes (failed_run (push_output run review) _ t) (fails review _ t refl))
      | inr left ↦ rw left (
          Keeps-bind (get_workflow run.workflow_id) _ (search keeps_rules) λ w.
            start_fixup-Keeps review (fixup_rounds_used run) response w
              (lt_of_leb 3 (fixup_rounds_used run) left))
    ]
      where
        review : Json
        review = output_entry p run task "code-reviewer" (str "changes_requested") response

    on_verdict-Keeps :
        (task : TaskRow) (response : String) (v : ReviewVerdict)
        → Keeps P (on_verdict p run task response v)
    unfolding output_entry
    on_verdict-Keeps task response (blocked reason) =
        fail_blocked-Keeps (output_entry p run task "code-reviewer" (str "blocked") reason)
          (excerpt reason)
    on_verdict-Keeps task response (changes_requested feedback) =
        on_changes_requested-Keeps task feedback
    on_verdict-Keeps task response approved =
        linear_advance-Keeps task (str "approved") response refl
    on_verdict-Keeps task response unknown =
        linear_advance-Keeps task (str "approved") response refl

    advance-Keeps : (task : TaskRow) → Keeps P (advance p run task)
    unfolding advance get_response output_entry
    advance-Keeps task = Keeps-bind (get_response task.id) _ (search keeps_rules) λ found.
        Keeps-if (task.assigned_agent == "code-reviewer") _ _
          (on_verdict-Keeps task (unwrap_or found "")
            (parse_reviewer_verdict p (unwrap_or found "")))
          (linear_advance-Keeps task null (unwrap_or found "") refl)

    abort_run-Keeps : Keeps P (abort_run p run)
    abort_run-Keeps = Keeps-bind now _ Keeps-now λ t.
        Keeps-bind (attempt _) _ (Keeps-attempt _ (writes (failed_run run _ t) (aborts _ t refl)))
          λ u. Keeps-pure tt

    settle_task-Keeps : (t : Option (Option TaskRow)) → Keeps P (settle_task p run t)
    settle_task-Keeps none = Keeps-pure tt
    settle_task-Keeps (some none) = Keeps-pure tt
    settle_task-Keeps (some (some task)) =
        Keeps-if (task.status == "done") _ _
          (Keeps-bind (attempt _) _ (Keeps-attempt _ (advance-Keeps task)) λ u. Keeps-pure tt)
          (Keeps-if (task.status == "failed") _ _ abort_run-Keeps (Keeps-pure tt))

    check_task-Keeps : (id : Option Uuid) → Keeps P (check_task p run id)
    unfolding get_task
    check_task-Keeps none = Keeps-pure tt
    check_task-Keeps (some id) =
        Keeps-bind (attempt (get_task id)) _ (search keeps_rules) settle_task-Keeps

  module _ (Q : WorkflowRun → Type 0)
      (writes : (run : WorkflowRun) → Q run → is_live run ≡ true → Writes P run) where
    tick_run-Keeps : (run : WorkflowRun) → Q run → Keeps P (tick_run p run)
    unfolding tick_run
    tick_run-Keeps run q = elim (Bool-cases (run.status == "running")) [
      | inl live ↦ rw live (check_task-Keeps run (writes run q live) run.current_task_id)
      | inr over ↦ rw over (Keeps-pure tt)
    ]

    tick_runs-Keeps : (runs : List WorkflowRun) → All Q runs → Keeps P (tick_runs p runs)
    unfolding tick_runs
    tick_runs-Keeps [] q = Keeps-pure tt
    tick_runs-Keeps (run ∷ rest) q =
        Keeps-bind (tick_run p run) _ (tick_run-Keeps run q.0) λ u. tick_runs-Keeps rest q.1

    -- A tick keeps what the steps keep of the runs that it finds, and what new tasks keep.
    pub tick-Keeps : (w : World) → All Q w.db.workflow_runs → P w.db → P (tick p w).1.db
    unfolding tick list_runs
    tick-Keeps w q h =
        bind_read-db _ (tick_runs p) w
          (tick_runs-Keeps _ (
            All-take Q 100 _
              (All-sort_by Q _ _ (All-select Q (of_workflow none) w.db.workflow_runs q))))
          h
