-- ===== src/Lake/Schema/Reads.antt =====
-- Rows that the schema admits are read without an error.
use open_mamba.Base.{ℕ, pos, ◌≡◌, refl, String, true, Option, some, List, get_elem?, is_some}
use open_mamba.Types.{Uuid, DateTime}
use open_mamba.Types.Json.{Json}
use open_mamba.Lake.Tables.{WorkflowStep}
use open_mamba.Lake.Timestamps.{Text}
use open_mamba.Lake.Mappers.{
  text, integer, unsigned, boolean, Row, integer_of, unsigned_of, boolean_of, map_webhook,
  map_schedule, map_workflow, map_run,
}
use open_mamba.Lake.Schema.Init.{webhooks, schedules, workflows, workflow_runs}
use open_mamba.Lake.Schema.Selects.{
  prepare, Fits, webhook_select, schedule_select, workflow_select, run_select,
}
use open_mamba.Lake.Schema.Cells.{
  IsMapped, bind_mapped, IsTime, result_of, value_at, text_at, opt_text_at, time_at, opt_time_at,
  json_at,
}

module _ (parse_from_rfc3339 : Text → Option DateTime) where
  read_webhook :
      (row : Row)
      → Fits (IsTime parse_from_rfc3339) (result_of webhooks webhook_select) row
      → IsMapped (map_webhook parse_from_rfc3339 row)
  unfolding map_webhook prepare
  read_webhook row fits =
      let columns = result_of webhooks webhook_select in
      bind_mapped (text_at parse_from_rfc3339 columns row fits 0 refl (λ c h. h)) λ hook_id.
        bind_mapped (text_at parse_from_rfc3339 columns row fits 1 refl (λ c h. h)) λ project.
          bind_mapped (text_at parse_from_rfc3339 columns row fits 2 refl (λ c h. h))
            λ assigned_agent.
              bind_mapped (opt_text_at parse_from_rfc3339 columns row fits 3 refl (λ c h. h))
                λ skill.
                  bind_mapped (text_at parse_from_rfc3339 columns row fits 4 refl (λ c h. h))
                    λ model.
                      bind_mapped (text_at parse_from_rfc3339 columns row fits 5 refl (λ c h. h))
                        λ payload_template.
                          bind_mapped
                            (value_at parse_from_rfc3339 columns row fits integer integer_of
                              (λ n. refl) 6 refl (λ c h. h))
                            λ priority.
                              bind_mapped
                                (value_at parse_from_rfc3339 columns row fits boolean boolean_of
                                  (λ b. refl) 7 refl (λ c h. h))
                                λ enabled.
                                  time_at parse_from_rfc3339 columns row fits 8 refl (λ c h. h)
                                    λ created_at.
                                      opt_time_at parse_from_rfc3339 columns row fits 9 refl
                                        (λ c h. h)
                                        λ last_fired_at.
                                          bind_mapped
                                            (value_at parse_from_rfc3339 columns row fits unsigned
                                              unsigned_of (λ n. refl) 10 refl (λ c h. h))
                                            λ fire_count. (_, refl)

  read_schedule :
      (row : Row)
      → Fits (IsTime parse_from_rfc3339) (result_of schedules schedule_select) row
      → IsMapped (map_schedule parse_from_rfc3339 row)
  unfolding map_schedule prepare
  read_schedule row fits =
      let columns = result_of schedules schedule_select in
      bind_mapped (text_at parse_from_rfc3339 columns row fits 0 refl (λ c h. h)) λ id.
        bind_mapped (text_at parse_from_rfc3339 columns row fits 1 refl (λ c h. h)) λ cron_expr.
          bind_mapped (text_at parse_from_rfc3339 columns row fits 2 refl (λ c h. h)) λ project.
            bind_mapped (text_at parse_from_rfc3339 columns row fits 3 refl (λ c h. h))
              λ assigned_agent.
                bind_mapped (opt_text_at parse_from_rfc3339 columns row fits 4 refl (λ c h. h))
                  λ skill.
                    bind_mapped (text_at parse_from_rfc3339 columns row fits 5 refl (λ c h. h))
                      λ model.
                        bind_mapped (text_at parse_from_rfc3339 columns row fits 6 refl (λ c h. h))
                          λ payload.
                            bind_mapped
                              (value_at parse_from_rfc3339 columns row fits integer integer_of
                                (λ n. refl) 7 refl (λ c h. h))
                              λ priority.
                                bind_mapped
                                  (value_at parse_from_rfc3339 columns row fits boolean boolean_of
                                    (λ b. refl) 8 refl (λ c h. h))
                                  λ enabled.
                                    time_at parse_from_rfc3339 columns row fits 9 refl (λ c h. h)
                                      λ next_run_at.
                                        opt_time_at parse_from_rfc3339 columns row fits 10 refl
                                          (λ c h. h)
                                          λ last_fired_at.
                                            bind_mapped
                                              (value_at parse_from_rfc3339 columns row fits unsigned
                                                unsigned_of (λ n. refl) 11 refl (λ c h. h))
                                              λ fire_count.
                                                time_at parse_from_rfc3339 columns row fits 12 refl
                                                  (λ c h. h) λ created_at. (_, refl)

  module _ (steps_from_str : String → Option (List WorkflowStep)) (row : Row) where
    read_workflow :
        Fits (IsTime parse_from_rfc3339) (result_of workflows workflow_select) row
        → ((s : String)
            → get_elem? row 2 ≡ some (text s)
            → (steps : List WorkflowStep) × (steps_from_str s ≡ some steps))
        → IsMapped (map_workflow parse_from_rfc3339 steps_from_str row)
    unfolding map_workflow prepare
    read_workflow fits json =
        let columns = result_of workflows workflow_select in
        json_at parse_from_rfc3339 columns row fits 2 refl (λ c h. h) json
          λ steps. bind_mapped (text_at parse_from_rfc3339 columns row fits 0 refl (λ c h. h)) λ id.
            bind_mapped (text_at parse_from_rfc3339 columns row fits 1 refl (λ c h. h)) λ name.
              bind_mapped
                (value_at parse_from_rfc3339 columns row fits boolean boolean_of (λ b. refl) 3 refl
                  (λ c h. h))
                λ enabled.
                  time_at parse_from_rfc3339 columns row fits 4 refl (λ c h. h)
                    λ created_at.
                      opt_time_at parse_from_rfc3339 columns row fits 5 refl (λ c h. h)
                        λ last_run_at.
                          bind_mapped
                            (value_at parse_from_rfc3339 columns row fits unsigned unsigned_of
                              (λ n. refl) 6 refl (λ c h. h))
                            λ run_count. (_, refl)

  module _ (outputs_from_str : String → Option (List Json)) (parse_str : String → Option Uuid)
      (row : Row) where
    read_run :
        Fits (IsTime parse_from_rfc3339) (result_of workflow_runs run_select) row
        → ((s : String)
            → get_elem? row 4 ≡ some (text s)
            → (outputs : List Json) × (outputs_from_str s ≡ some outputs))
        → (n : ℕ) → get_elem? row 3 ≡ some (integer (pos n))
        → IsMapped (map_run parse_from_rfc3339 outputs_from_str parse_str row)
    unfolding map_run prepare
    read_run fits json n step =
        let columns = result_of workflow_runs run_select in
        json_at parse_from_rfc3339 columns row fits 4 refl (λ c h. h) json
          λ outputs.
            bind_mapped (opt_text_at parse_from_rfc3339 columns row fits 9 refl (λ c h. h))
              λ task_id.
                bind_mapped (text_at parse_from_rfc3339 columns row fits 0 refl (λ c h. h))
                  λ run_id.
                    bind_mapped (text_at parse_from_rfc3339 columns row fits 1 refl (λ c h. h))
                      λ workflow_id.
                        bind_mapped (text_at parse_from_rfc3339 columns row fits 2 refl (λ c h. h))
                          λ status.
                            bind_mapped (n, rw step refl)
                              λ current_step.
                                bind_mapped
                                  (opt_text_at parse_from_rfc3339 columns row fits 5 refl
                                    (λ c h. h))
                                  λ initial_input.
                                    time_at parse_from_rfc3339 columns row fits 6 refl (λ c h. h)
                                      λ started_at.
                                        opt_time_at parse_from_rfc3339 columns row fits 7 refl
                                          (λ c h. h)
                                          λ completed_at.
                                            bind_mapped
                                              (opt_text_at parse_from_rfc3339 columns row fits 8
                                                refl (λ c h. h))
                                              λ error. (_, refl)

-- The SELECTs of webhooks, schedules, workflows and runs name columns that their tables have. Take a row of
-- each that has the types and NULLs which the schema allows, with times that `parse_ts` reads once they are
-- cast to VARCHAR, with steps and outputs that serde_json reads, and with a current step that is not negative.
-- Then `map_webhook`, `map_schedule`, `map_workflow` and `map_run` neither fail on it nor panic: each `get`
-- asks at its index for the type that the column there has, and for an Option where it may be NULL.
pub prepare-IsMapped :
    (parse_from_rfc3339 : Text → Option DateTime)
    (steps_from_str : String → Option (List WorkflowStep))
    (outputs_from_str : String → Option (List Json)) (parse_str : String → Option Uuid)
    (hook schedule workflow run : Row) (step : ℕ)
    → Fits (IsTime parse_from_rfc3339) (result_of webhooks webhook_select) hook
    → Fits (IsTime parse_from_rfc3339) (result_of schedules schedule_select) schedule
    → Fits (IsTime parse_from_rfc3339) (result_of workflows workflow_select) workflow
    → Fits (IsTime parse_from_rfc3339) (result_of workflow_runs run_select) run
    → ((s : String)
        → get_elem? workflow 2 ≡ some (text s)
        → (steps : List WorkflowStep) × (steps_from_str s ≡ some steps))
    → ((s : String)
        → get_elem? run 4 ≡ some (text s)
        → (outputs : List Json) × (outputs_from_str s ≡ some outputs))
    → get_elem? run 3 ≡ some (integer (pos step))
    → ((is_some (prepare webhooks webhook_select) ≡ true)
        × IsMapped (map_webhook parse_from_rfc3339 hook))
      × ((is_some (prepare schedules schedule_select) ≡ true)
          × IsMapped (map_schedule parse_from_rfc3339 schedule))
      × ((is_some (prepare workflows workflow_select) ≡ true)
          × IsMapped (map_workflow parse_from_rfc3339 steps_from_str workflow))
      × ((is_some (prepare workflow_runs run_select) ≡ true)
          × IsMapped (map_run parse_from_rfc3339 outputs_from_str parse_str run))
unfolding prepare
prepare-IsMapped parse steps outputs uuid hook schedule workflow run step hook_fits schedule_fits
      workflow_fits run_fits steps_read outputs_read at_step =
    (
      (refl, read_webhook parse hook hook_fits),
      (refl, read_schedule parse schedule schedule_fits),
      (refl, read_workflow parse steps workflow workflow_fits steps_read),
      (refl, read_run parse outputs uuid run run_fits outputs_read step at_step),
    )
