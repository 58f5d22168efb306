-- ===== src/Api/Runner/Machine.antt =====
-- The advancer as an implementation of the machine of Spec: what one tick makes of one run.
use open_mamba.Base.{
  ◌≡◌, ◌≢◌, ◌⊎◌, refl, sym, ap, ◌∙◌, true, false, [], ◌∷◌, ◌==◌, eq_iff, select, update, Bool-cases,
  inl, inr, select-update_other, select-update_same, All-of_select, leb, map,
}
use open_mamba.Types.{TaskEnvelope}
use open_mamba.Platform.{Platform}
use open_mamba.Lake.Tables.{WorkflowRun, Db}
use open_mamba.Lake.Exec.{World}
use open_mamba.Lake.Keeps.{Keeps, Keeps-if, Keeps-fail, Keeps-with_conn, Keeps-execute}
use open_mamba.Lake.Store.{insert_envelope}
use open_mamba.Lake.Workflows.{update_run, is_run, write_run}
use open_mamba.Bus.Dispatch.{submit}
use open_mamba.Api.Runner.{tick}
use open_mamba.Api.Runner.Spec.{RunStep, is_live, write_run-RunStep, write_run_self, run_id-RunStep}
use open_mamba.Api.Runner.Refines.{tick-Keeps}

-- The table has this run as it is, and no other row with its id.
abbrev pub Has : WorkflowRun → Db → Type 0
Has r d = select (is_run r.run_id) d.workflow_runs ≡ r ∷ []

-- The run as it was, or, if it was running, after one step.
abbrev pub Follows : WorkflowRun → WorkflowRun → Type 0
Follows r r' = (r' ≡ r) ⊎ ((is_live r ≡ true) × RunStep r r')

-- One row has the id of the run, and it is that run or what follows.
abbrev pub HasNext : WorkflowRun → Db → Type 0
HasNext r d =
    (r' : WorkflowRun) × (select (is_run r.run_id) d.workflow_runs ≡ r' ∷ []) × Follows r r'

-- Such a row takes the columns of a step.
write_run-Follows : {r x r' : WorkflowRun} → Follows r x → RunStep r r' → write_run r' x ≡ r'
write_run-Follows {r} {x} {r'} (inl same) s = rw same (write_run_self s)
write_run-Follows {r} {x} {r'} (inr (live, t)) s = write_run-RunStep r' t ∙ write_run_self s

module _ (r : WorkflowRun) where
  submit-HasNext : (e : TaskEnvelope) → Keeps (HasNext r) (submit e)
  unfolding submit insert_envelope
  submit-HasNext e =
      Keeps-with_conn _ (
        Keeps-if (leb e.priority 127) _ _ (Keeps-execute _ λ d h. h)
          (Keeps-fail "Conversion Error"))

  apart :
      (run x : WorkflowRun)
      → run.run_id ≢ r.run_id
      → is_run run.run_id x ≡ true
      → is_run r.run_id x ≡ false
  apart run x other e = elim (Bool-cases (x.run_id == r.run_id)) [
    | inl same ↦
        absurd (other (sym ((eq_iff x.run_id run.run_id).0 e) ∙ (eq_iff x.run_id r.run_id).0 same))
    | inr differs ↦ differs
  ]

  update_run-other :
      (run : WorkflowRun) → run.run_id ≢ r.run_id → Keeps (HasNext r) (update_run run)
  unfolding update_run
  update_run-other run other = Keeps-with_conn _ (
      Keeps-execute _ λ d (x, at_id, follows). (
        x,
        select-update_other (is_run r.run_id) (is_run run.run_id) (write_run run) d.workflow_runs
              (λ y. refl) (λ y e. apart run y other e)
            ∙ at_id,
        follows,
      ))

  update_run-step :
      (r' : WorkflowRun) → is_live r ≡ true → RunStep r r' → Keeps (HasNext r) (update_run r')
  unfolding update_run
  update_run-step r' live s = Keeps-with_conn _ (
      Keeps-execute _ λ d (x, at_id, follows). (
        r',
        ap (λ k. select (is_run r.run_id) (update (is_run k) (write_run r') d.workflow_runs))
              (run_id-RunStep s)
            ∙ (select-update_same (is_run r.run_id) (write_run r') d.workflow_runs (λ y. refl)
                ∙ (ap (map (write_run r')) at_id ∙ ap (λ y. y ∷ []) (write_run-Follows follows s))),
        inr (live, s),
      ))

  -- Each run that is read under the id is the run itself.
  update_run-HasNext :
      (run : WorkflowRun)
      → (is_run r.run_id run ≡ true → run ≡ r)
      → is_live run ≡ true
      → (r' : WorkflowRun) → RunStep run r'
      → Keeps (HasNext r) (update_run r')
  update_run-HasNext run known live r' s = elim (Bool-cases (run.run_id == r.run_id)) [
    | inl same ↦ update_run-step r' (rw (known same) at live) (rw (known same) at s)
    | inr other ↦
        update_run-other r'
          λ e. let same = (eq_iff run.run_id r.run_id).1 (sym (run_id-RunStep s) ∙ e) in absurd cc
  ]

-- A tick of the advancer, whatever SQL statements fail in it and also where it panics or blocks,
-- leaves a run, under an id that no other run has, as it was, or takes it one step of the machine on,
-- and only if it was running: to its next step, to its end, back to its first step with rounds left,
-- or to failure.
pub tick-HasNext :
    (p : Platform) (w : World) (r : WorkflowRun) → Has r w.db → HasNext r (tick p w).1.db
tick-HasNext p w r has =
    tick-Keeps p (submit-HasNext r) (λ run. is_run r.run_id run ≡ true → run ≡ r)
      (update_run-HasNext r) w
      (All-of_select (λ x. x ≡ r) (is_run r.run_id) w.db.workflow_runs (rw has (refl, tt)))
      (r, has, inl refl)
