-- ===== src/Tests/Ids.antt =====
-- A task that is submitted, fails once, and is put back by hand with a failing INSERT.
use open_mamba.Base.{◌+◌, refl, true, false, [], ◌∷◌, arith, ◌≡◌, pos, none, List, map, leb}
use open_mamba.Lake.Tables.{no_rows}
use open_mamba.Lake.Exec.{World, ok, ready}
use open_mamba.Lake.Store.Reset.{record_dispatch_failure, reset_to_pending}
use open_mamba.Lake.Store.Unique.{HasUniqueIds}
use open_mamba.Bus.Dispatch.{submit}
use open_mamba.Lake.Store.{complete_envelope}
use open_mamba.Lake.Analytics.{
  ProjectConsumption, GlobalConsumption, per_project_consumption, global_consumption,
}
use open_mamba.Lake.Analytics.Groups.{total}
use open_mamba.Bus.Queue.Totals.{Reach-per_project_consumption}
use open_mamba.Bus.Queue.{
  here, next, submits, completes, fails, retries, elsewhere, Reach-HasUniqueIds,
}
use open_mamba.Tests.Setting.{envelope, uuids}

abbrev empty : World
empty = ready no_rows 50 uuids

abbrev submitted : World
submitted = (submit (envelope "claude-opus-4-7") empty).1

abbrev faulted : World
faulted = record (record_dispatch_failure 1 true 2 30 submitted).1 {
  faults = false ∷ false ∷ true ∷ [];
}

Reach-HasUniqueIds_example : HasUniqueIds (reset_to_pending (1 ∷ []) faulted).1.db
unfolding open_mamba.Lake.Store.envelope_row open_mamba.Types.status_as_str
Reach-HasUniqueIds_example =
    Reach-HasUniqueIds empty (reset_to_pending (1 ∷ []) faulted).1
      (next
        (next
          (next (next here (submits (envelope "claude-opus-4-7") refl refl refl))
            (fails 1 true 2 30 refl))
          (elsewhere refl))
        (retries (1 ∷ []) refl))
      λ j. omega arith

abbrev completed : World
completed = (complete_envelope 1 (pos 3) (pos 4) 0 none submitted).1

Reach-per_project_consumption_example :
    (ps : List ProjectConsumption) × (g : GlobalConsumption) × (per_project_consumption ◌+◌
        (λ a b. leb b a)
        (ready completed.db 60 uuids)
      ≡ (ok ps, ready completed.db 60 uuids))
    × (global_consumption ◌+◌ (λ a b. leb b a) (ready completed.db 60 uuids)
        ≡ (ok g, ready completed.db 60 uuids))
    × (total (map (λ q. q.tokens) ps) ≡ g.total_tokens)
    × (total (map (λ q. pos q.tasks) ps) ≡ pos g.total_tasks)
unfolding open_mamba.Lake.Store.envelope_row open_mamba.Types.status_as_str
Reach-per_project_consumption_example =
    Reach-per_project_consumption ◌+◌ (λ a b. leb b a) empty completed 60 uuids
      (next (next here (submits (envelope "claude-opus-4-7") refl refl refl))
        (completes 1 (pos 3) (pos 4) 0 none refl))
      tt
