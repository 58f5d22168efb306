-- ===== src/Tests/Schema.antt =====
-- The task table as its first version had it, and a row of each of four tables.
use open_mamba.Base.{
  ◌≡◌, refl, String, true, Option, some, none, List, [], inl, inr, take, is_some, arith,
}
use open_mamba.Types.{Uuid, DateTime}
use open_mamba.Types.Json.{Json}
use open_mamba.Lake.Tables.{WorkflowStep}
use open_mamba.Lake.Timestamps.{Text, triggers_parse_ts}
use open_mamba.Lake.Mappers.{map_webhook, map_schedule, map_workflow, map_run}
use open_mamba.Lake.Mappers.Columns.{
  webhook_columns, schedule_columns, workflow_columns, run_columns,
}
use open_mamba.Lake.Schema.{task_envelopes_create_sql, init_task_envelopes}
use open_mamba.Lake.Schema.Init.{webhooks, schedules, schedules_recreated, workflows, workflow_runs}
use open_mamba.Lake.Schema.Upgrade.{init_task_envelopes-create}
use open_mamba.Lake.Schema.Selects.{
  prepare, webhook_select, schedule_select, workflow_select, run_select,
}
use open_mamba.Lake.Schema.Cells.{IsMapped}
use open_mamba.Lake.Schema.Reads.{prepare-IsMapped}
use open_mamba.Tests.Setting.{hook, schedule, workflow, run, unary}

init_task_envelopes-create_example :
    (init_task_envelopes none ≡ task_envelopes_create_sql)
    × (init_task_envelopes (some (take 18 task_envelopes_create_sql)) ≡ task_envelopes_create_sql)
    × (init_task_envelopes (some (init_task_envelopes none)) ≡ init_task_envelopes none)
    × (schedules_recreated ≡ schedules)
init_task_envelopes-create_example = init_task_envelopes-create 18 none (omega arith)

abbrev noon : DateTime → String
noon t = "2026-01-01 12:00:00+00"

abbrev clock : Text → Option DateTime
clock l = some 7

abbrev steps : String → Option (List WorkflowStep)
steps s = some workflow.steps

abbrev outputs : String → Option (List Json)
outputs s = some []

abbrev uuid : String → Option Uuid
uuid s = some 1

prepare-IsMapped_example :
    ((is_some (prepare webhooks webhook_select) ≡ true)
      × IsMapped (map_webhook clock (webhook_columns noon hook)))
    × ((is_some (prepare schedules schedule_select) ≡ true)
        × IsMapped (map_schedule clock (schedule_columns noon schedule)))
    × ((is_some (prepare workflows workflow_select) ≡ true)
        × IsMapped (map_workflow clock steps (workflow_columns noon (λ l. "[]") workflow)))
    × ((is_some (prepare workflow_runs run_select) ≡ true)
        × IsMapped (map_run clock outputs uuid (run_columns noon (λ l. "[]") unary (run 1 []))))
unfolding prepare webhook_columns schedule_columns workflow_columns run_columns triggers_parse_ts
prepare-IsMapped_example =
    prepare-IsMapped clock steps outputs uuid (webhook_columns noon hook)
      (schedule_columns noon schedule) (workflow_columns noon (λ l. "[]") workflow)
      (run_columns noon (λ l. "[]") unary (run 1 [])) 1
      (
        (_, refl),
        (
          (_, refl),
          (
            (_, refl),
            (
              inl refl,
              (
                (_, refl),
                (
                  (_, refl),
                  ((_, refl), ((_, refl), ((_, refl, (7, refl)), (inl refl, ((_, refl), tt))))),
                ),
              ),
            ),
          ),
        ),
      )
      (
        (_, refl),
        (
          (_, refl),
          (
            (_, refl),
            (
              (_, refl),
              (
                inl refl,
                (
                  (_, refl),
                  (
                    (_, refl),
                    (
                      (_, refl),
                      (
                        (_, refl),
                        ((_, refl, (7, refl)), (inl refl, ((_, refl), ((_, refl, (7, refl)), tt)))),
                      ),
                    ),
                  ),
                ),
              ),
            ),
          ),
        ),
      )
      (
        (_, refl),
        ((_, refl), ((_, refl), ((_, refl), ((_, refl, (7, refl)), (inl refl, ((_, refl), tt)))))),
      )
      (
        (_, refl),
        (
          (_, refl),
          (
            (_, refl),
            (
              (_, refl),
              (
                (_, refl),
                (inl refl, ((_, refl, (7, refl)), (inl refl, (inl refl, (inr (_, refl), tt))))),
              ),
            ),
          ),
        ),
      )
      (λ s h. (_, refl)) (λ s h. (_, refl)) refl
