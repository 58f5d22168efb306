-- ===== src/Tests/Delivery.antt =====
-- A task for an agent that answers.
use open_mamba.Base.{◌≡◌, refl, pos, some, none, [], ◌∷◌}
use open_mamba.Platform.{reply, response}
use open_mamba.Types.{TaskEnvelope}
use open_mamba.Lake.Tables.{no_rows}
use open_mamba.Lake.Exec.{World, ok, ready}
use open_mamba.Lake.Store.{get_response}
use open_mamba.Nemotron.{from_model_str}
use open_mamba.Bus.Openfang.{DispatchResult, resolve_agent_id, dispatch}
use open_mamba.Bus.Dispatch.{Bus, submit, route}
use open_mamba.Api.Worker.{poll, started}
use open_mamba.Api.Worker.Handover.{requeued}
use open_mamba.Api.Worker.Delivery.{submit-get_response}
use open_mamba.Tests.Setting.{platform, bus, openfang, envelope, uuids}

abbrev talking : Bus
talking = record bus {
  openfang = record openfang {
    send = λ agent message. response 200 message;
    parse =
        λ s. reply (record { response = s; input_tokens = 7; output_tokens = 9; cost_usd = none });
  };
}

abbrev said : DispatchResult
said = record { response = "do it"; input_tokens = pos 7; output_tokens = pos 9; cost_usd = 0 }

abbrev task : TaskEnvelope
task = envelope "claude-opus-4-7"

abbrev submitted : World
submitted = (submit task (ready no_rows 50 uuids)).1

submit-get_response_example :
    ((poll platform (started submitted)).spawned ≡ requeued platform 50 task ∷ [])
    × ((get_response 1 (route talking (requeued platform 50 task) submitted).1).0
        ≡ ok (some "do it"))
    × ((poll platform (started (route talking (requeued platform 50 task) submitted).1)).spawned
        ≡ [])
unfolding resolve_agent_id dispatch from_model_str
submit-get_response_example =
    submit-get_response talking task "a1" "do it" said no_rows 50 uuids refl refl refl refl refl
      refl refl refl refl refl
