-- ===== src/Bus/Dispatch/Provider.antt =====
-- A dispatch to the inference provider: what it leaves behind on each outcome.
use open_mamba.Base.{ℕ, suc, pos, ◌≡◌, String, false, some, any, eqb}
use open_mamba.Types.{Uuid, DateTime, f64_zero, TaskEnvelope, BillingRecord, status_as_str}
use open_mamba.Platform.{reply, error}
use open_mamba.Lake.Tables.{TaskRecord, Db}
use open_mamba.Lake.Exec.{ok, err, ready}
use open_mamba.Lake.Store.{update_status}
use open_mamba.Lake.Store.Rows.{find_task, on_tasks}
use open_mamba.Nemotron.{NemotronAdapter, GenerateResponse, generate, slug}
use open_mamba.Bus.Dispatch.{Bus, dispatch_nemotron, adapter_system_prompt}
use open_mamba.Bus.Dispatch.Settling.{failed_rows, give_up-running, settled, settle-running}
use open_mamba.Bus.Dispatch.Nemotron.{estimate_cost_usd-slug}

-- With no database failure, a dispatch to the inference provider that gives an error ends with that
-- error. The task was set running; a transient error on a task with fewer than two retries puts it back,
-- to wait for 60 seconds, and any other fails it.
pub dispatch_nemotron-record_dispatch_failure :
    (b : Bus) (e : TaskEnvelope) (adapter : NemotronAdapter) (msg : String) (d : Db) (t : DateTime)
    (ids : ℕ → Uuid) (r : TaskRecord)
    → generate b.platform b.nemotron adapter e.payload (adapter_system_prompt adapter) (some 512)
      ≡ error msg
    → find_task e.id d.task_envelopes ≡ some r
    → dispatch_nemotron b e adapter (ready d t ids)
      ≡ (err msg, ready (on_tasks (failed_rows b e.id 60 msg t r) d) t ids)
unfolding dispatch_nemotron update_status status_as_str
dispatch_nemotron-record_dispatch_failure b e adapter msg d t ids r failed known =
    rw (failed) (give_up-running b e d t ids 60 msg r known)

-- With no database failure, a dispatch to the inference provider that is answered succeeds: the task is
-- done with the text of the answer, no tokens in, its tokens out and no cost, and one bill with them is
-- kept under a fresh id, if its log can be encrypted and lower case leaves the adapter's name as it is.
pub dispatch_nemotron-process :
    (b : Bus) (e : TaskEnvelope) (adapter : NemotronAdapter) (log : String) (a : GenerateResponse)
    (d : Db) (t : DateTime) (ids : ℕ → Uuid)
    → generate b.platform b.nemotron adapter e.payload (adapter_system_prompt adapter) (some 512)
      ≡ reply a
    → b.platform.to_lowercase (slug adapter) ≡ slug adapter
    → b.platform.encrypt (b.platform.envelope_to_json e) ≡ reply log
    → any (λ (r : BillingRecord). eqb r.id (ids 0)) d.billing_records ≡ false
    → dispatch_nemotron b e adapter (ready d t ids) ≡ (
      ok tt,
      ready
          (settled b e d t ids log a.response (pos 0) (pos a.tokens) f64_zero)
          t
          (λ n. ids (suc n)),
    )
unfolding dispatch_nemotron update_status status_as_str
dispatch_nemotron-process b e adapter log a d t ids answer lower sealed fresh =
    rw (answer, estimate_cost_usd-slug b.platform adapter (pos 0) (pos a.tokens) lower)
      (settle-running b e d t ids a.response (pos 0) (pos a.tokens) f64_zero log sealed fresh)
