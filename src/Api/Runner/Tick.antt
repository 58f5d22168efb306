-- ===== src/Api/Runner/Tick.antt =====
-- One tick of the advancer over all its runs: the budget.
use open_mamba.Base.{leb}
use open_mamba.Types.{TaskEnvelope}
use open_mamba.Platform.{Platform}
use open_mamba.Lake.Exec.{World}
use open_mamba.Lake.Keeps.{Keeps, Keeps-with_conn, Keeps-execute, Keeps-if, Keeps-fail}
use open_mamba.Lake.Store.{insert_envelope}
use open_mamba.Bus.Dispatch.{submit}
use open_mamba.Api.Runner.{tick}
use open_mamba.Api.Runner.Refines.{tick-Keeps}
use open_mamba.Api.Runner.Fixup.{InBudget, AllInBudget, RunStep-InBudget, update_run-AllInBudget}

submit-AllInBudget : (e : TaskEnvelope) → Keeps AllInBudget (submit e)
unfolding submit insert_envelope
submit-AllInBudget e =
    Keeps-with_conn _
      (Keeps-if (leb e.priority 127) _ _ (Keeps-execute _ λ d h. h) (Keeps-fail "Conversion Error"))

-- A tick of the advancer, whatever SQL statements fail in it and also where it panics or blocks,
-- leads from a database in which each running run has asked for changes three times at most, and
-- each ended run four times at most, to such a database.
pub tick-AllInBudget : (p : Platform) (w : World) → AllInBudget w.db → AllInBudget (tick p w).1.db
tick-AllInBudget p w h =
    tick-Keeps p submit-AllInBudget InBudget
      (λ run budget live r s. update_run-AllInBudget r (RunStep-InBudget s live budget)) w h h
