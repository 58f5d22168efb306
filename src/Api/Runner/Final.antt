-- ===== src/Api/Runner/Final.antt =====
-- A run that has ended stays as it is.
use open_mamba.Base.{◌≡◌, ap, ◌∙◌, false, [], ◌∷◌, ◌==◌, inl, inr}
use open_mamba.Platform.{Platform}
use open_mamba.Lake.Tables.{WorkflowRun}
use open_mamba.Lake.Exec.{World}
use open_mamba.Api.Runner.{tick}
use open_mamba.Api.Runner.Machine.{Has, tick-HasNext}

-- A run that has ended, under an id that no other run has, is the same after a tick of the advancer,
-- whatever SQL statements fail in the tick and also where it panics or blocks.
pub tick-Has :
    (p : Platform) (w : World) (r : WorkflowRun)
    → (r.status == "running") ≡ false
    → Has r w.db
    → Has r (tick p w).1.db
tick-Has p w r over has =
    let (r', at_id, follows) = tick-HasNext p w r has in
    elim follows [ inl same ↦ at_id ∙ ap (λ y. y ∷ []) same | inr (live, s) ↦ absurd cc ]
