-- ===== src/Bus/Dispatch/Forward.antt =====
-- A dispatch to a URL.
use open_mamba.Base.{
  ℕ, suc, ◌≡◌, refl, String, Option, true, false, none, some, pos, unwrap_or, update,
}
use text.Mathlib.Text.{starts_with}
use text.Mathlib.TextPositions.{starts_with-append}
use open_mamba.Types.{DateTime, Uuid, TaskEnvelope, status_as_str, f64_zero}
use open_mamba.Types.Json.{Json, str, obj, field, end}
use open_mamba.Platform.{response}
use open_mamba.Lake.Tables.{TaskRecord, Db}
use open_mamba.Lake.Exec.{ok, ready}
use open_mamba.Lake.Store.{update_status, complete_envelope}
use open_mamba.Lake.Store.Rows.{has_id, on_tasks}
use open_mamba.Bus.Dispatch.{
  Bus, route, dispatch_http_forward, forward_body, forward_prefix, forward_url,
}
use open_mamba.Bus.Dispatch.Url.{prefixed, forward_url-prefixed}
use open_mamba.Nemotron.{from_model_str}
use open_mamba.Bus.Dispatch.Settling.{running_row}

-- The row after its URL has answered.
abbrev pub forwarded_row : DateTime → String → TaskRecord → TaskRecord
forwarded_row t body r = record r {
  status = "done";
  tokens_in = some (pos 0);
  tokens_out = some (pos 0);
  cost_usd = some f64_zero;
  chain_tx = some body;
  completed_at = some t;
}

-- With no database failure, any answer of the URL, whatever its status, completes the task, with the
-- body of the answer where the transaction of the chain is kept, and nothing else changes.
pub dispatch_http_forward-response :
    (b : Bus) (e : TaskEnvelope) (url : String) (status : ℕ) (body : String) (d : Db) (t : DateTime)
    (ids : ℕ → Uuid)
    → b.forward url (forward_body e (b.platform.json_from_str e.payload)) ≡ response status body
    → dispatch_http_forward b e url (ready d t ids) ≡ (
      ok tt,
      ready
          (on_tasks
            (λ rows.
              update
                (has_id e.id)
                (forwarded_row t body)
                (update (has_id e.id) (running_row t) rows))
            d)
          t
          ids,
    )
unfolding dispatch_http_forward update_status complete_envelope status_as_str
dispatch_http_forward-response b e url status body d t ids h = rw h refl

forward_body_lem :
    (e : TaskEnvelope) (body : Option Json)
    → forward_body e body ≡ unwrap_or body (obj (field "payload" (str e.payload) end))
forward_body_lem e none = refl
forward_body_lem e (some j) = refl

-- With no database failure, a task whose model is one or more copies of the prefix http-forward: before a
-- URL that does not start with it, and not the provider's, is posted to just that URL, empty or not, every
-- byte of it: the body is the payload as JSON, or an object around a payload that is none. Any answer of
-- that URL completes the task, with the body of the answer where the transaction of the chain is kept.
pub route-forward_url :
    (b : Bus) (e : TaskEnvelope) (n : ℕ) (url : String) (status : ℕ) (body : String) (d : Db)
    (t : DateTime) (ids : ℕ → Uuid)
    → e.model ≡ prefixed (suc n) url
    → starts_with url "http-forward:" ≡ false
    → from_model_str b.platform e.model ≡ none
    → b.forward url
        (unwrap_or (b.platform.json_from_str e.payload) (obj (field "payload" (str e.payload) end)))
      ≡ response status body
    → route b e (ready d t ids) ≡ (
      ok tt,
      ready
          (on_tasks
            (λ rows.
              update
                (has_id e.id)
                (forwarded_row t body)
                (update (has_id e.id) (running_row t) rows))
            d)
          t
          ids,
    )
unfolding route
route-forward_url b e n url status body d t ids model plain other answer =
    let to_url : starts_with e.model forward_prefix ≡ true =
      rw model (starts_with-append forward_prefix (prefixed n url)) in
    let at_url : forward_url e.model ≡ url = rw model (forward_url-prefixed (suc n) url plain) in
    let answered : b.forward url (forward_body e (b.platform.json_from_str e.payload))
        ≡ response status body =
      rw (forward_body_lem e (b.platform.json_from_str e.payload)) answer in
    rw (other, to_url, at_url) (dispatch_http_forward-response b e url status body d t ids answered)
