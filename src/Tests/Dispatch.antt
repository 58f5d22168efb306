-- ===== src/Tests/Dispatch.antt =====
-- The bus.
use open_mamba.Base.{
  ◌+◌, ◌≡◌, refl, true, false, ◌&&◌, ltb, if◌then◌else◌, some, none, [], ◌∷◌, update,
}
use open_mamba.Types.{TaskEnvelope, seconds}
use open_mamba.Platform.{response}
use open_mamba.Nemotron.{from_model_str}
use open_mamba.Lake.Tables.{TaskRecord}
use open_mamba.Lake.Exec.{ok, err, ready, faulty}
use open_mamba.Lake.Store.Rows.{has_id, on_tasks}
use open_mamba.Lake.Store.Retry.{after_failure}
use open_mamba.Lake.Store.Reset.{retry_of}
use open_mamba.Bus.Errors.{is_transient_error}
use open_mamba.Bus.Openfang.{resolve_agent_id, dispatch}
use open_mamba.Bus.Dispatch.{Bus, dispatch_openfang, route}
use open_mamba.Bus.Dispatch.Openfang.{dispatch_openfang-record_dispatch_failure}
use open_mamba.Bus.Dispatch.Settling.{running_row}
use open_mamba.Lake.Store.Frame.{others}
use open_mamba.Bus.Dispatch.Frame.{route-others}
use open_mamba.Bus.Dispatch.Forward.{forwarded_row, route-forward_url}
use open_mamba.Tests.Setting.{platform, bus, tasks, row, envelope, uuids}

abbrev due : TaskRecord
due = row 1 "coder" "pending" none

dispatch_openfang-record_dispatch_failure_example :
    let transient = is_transient_error platform "operation timed out" in
    let retried = transient && ltb (retry_of (some due)) 2 in
    let rows = update (has_id 1) (running_row 50) (due ∷ []) in
    dispatch_openfang bus (envelope "claude-opus-4-7") (ready (tasks (due ∷ [])) 50 uuids) ≡ (
      err "operation timed out",
      ready
          (on_tasks
            (λ _.
              after_failure 1 retried
                (50 + seconds (if transient then 30 else 0))
                (running_row 50 due)
                rows)
            (tasks (due ∷ [])))
          50
          uuids,
    )
unfolding resolve_agent_id dispatch
dispatch_openfang-record_dispatch_failure_example =
    dispatch_openfang-record_dispatch_failure bus (envelope "claude-opus-4-7") "a1"
      "operation timed out" (tasks (due ∷ [])) 50 uuids due refl refl refl

route-others_example :
    others 1
      (route bus (envelope "claude-opus-4-7") (
        faulty
          (false ∷ true ∷ [])
          (tasks (due ∷ row 2 "coder" "running" none ∷ []))
          50
          uuids)).1.db.task_envelopes
    ≡ row 2 "coder" "running" none ∷ []
route-others_example =
    route-others bus (envelope "claude-opus-4-7")
      (faulty (false ∷ true ∷ []) (tasks (due ∷ row 2 "coder" "running" none ∷ [])) 50 uuids)

-- A bus whose POST answers with the URL, and a task for a URL behind two copies of the prefix.
abbrev echo : Bus
echo = record bus { forward = λ url body. response 200 url }

abbrev for_url : TaskEnvelope
for_url = envelope "http-forward:http-forward:https://x"

route-forward_url_example : route echo for_url (ready (tasks (due ∷ [])) 50 uuids) ≡ (
  ok tt,
  ready
      (on_tasks
        (λ rows.
          update
            (has_id 1)
            (forwarded_row 50 "https://x")
            (update (has_id 1) (running_row 50) rows))
        (tasks (due ∷ [])))
      50
      uuids,
)
unfolding from_model_str
route-forward_url_example =
    route-forward_url echo for_url 1 "https://x" 200 "https://x" (tasks (due ∷ [])) 50 uuids refl
      refl refl refl
