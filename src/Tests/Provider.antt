-- ===== src/Tests/Provider.antt =====
-- An inference provider that cannot be reached, and one that answers.
use open_mamba.Base.{suc, ◌≡◌, refl, pos, some, none, [], ◌∷◌}
use open_mamba.Platform.{response, reply}
use open_mamba.Types.{f64_zero}
use open_mamba.Lake.Tables.{TaskRecord}
use open_mamba.Lake.Exec.{ok, err, ready}
use open_mamba.Lake.Store.Rows.{on_tasks}
use open_mamba.Nemotron.{taifoon, generate, slug}
use open_mamba.Bus.Dispatch.{Bus, dispatch_nemotron, adapter_system_prompt}
use open_mamba.Bus.Dispatch.Settling.{failed_rows, settled}
use open_mamba.Bus.Dispatch.Provider.{
  dispatch_nemotron-record_dispatch_failure, dispatch_nemotron-process,
}
use open_mamba.Tests.Setting.{bus, nemotron, tasks, row, envelope, uuids}

abbrev due : TaskRecord
due = row 1 "coder" "pending" none

abbrev unreachable : Bus
unreachable = record bus { nemotron = record nemotron { base_url = some "http://localhost" } }

abbrev answering : Bus
answering = record bus {
  nemotron = record nemotron {
    base_url = some "http://localhost";
    post = λ url req grid key. response 200 "yes";
    parse = λ s.
        reply
          (record { response = s; tokens = 9; duration = 1; tokens_per_second = 1; model = none });
  };
}

dispatch_nemotron-record_dispatch_failure_example :
    dispatch_nemotron unreachable
      (envelope "nemotron/taifoon")
      taifoon
      (ready (tasks (due ∷ [])) 50 uuids)
    ≡ (
      err "connection refused",
      ready
          (on_tasks (failed_rows unreachable 1 60 "connection refused" 50 due) (tasks (due ∷ [])))
          50
          uuids,
    )
unfolding generate slug adapter_system_prompt
dispatch_nemotron-record_dispatch_failure_example =
    dispatch_nemotron-record_dispatch_failure unreachable (envelope "nemotron/taifoon") taifoon
      "connection refused" (tasks (due ∷ [])) 50 uuids due refl refl

dispatch_nemotron-process_example :
    dispatch_nemotron answering
      (envelope "nemotron/taifoon")
      taifoon
      (ready (tasks (due ∷ [])) 50 uuids)
    ≡ (
      ok tt,
      ready
          (settled answering
            (envelope "nemotron/taifoon")
            (tasks (due ∷ []))
            50
            uuids
            "do it"
            "yes"
            (pos 0)
            (pos 9)
            f64_zero)
          50
          (λ n. uuids (suc n)),
    )
unfolding generate slug adapter_system_prompt
dispatch_nemotron-process_example =
    dispatch_nemotron-process answering (envelope "nemotron/taifoon") taifoon "do it"
      (record { response = "yes"; tokens = 9; duration = 1; tokens_per_second = 1; model = none })
      (tasks (due ∷ [])) 50 uuids refl refl refl refl
