-- ===== src/Tests/Web.antt =====
-- Examples for the HTTP interface.
use attow_nexus.Prelude.{◌≡◌, refl, ◌↔◌, none, some, [], ◌∷◌}
use attow_nexus.Json.{Fields, number, pos_int, string, object, array, nil, cons, end, field}
use attow_nexus.Auth
use attow_nexus.Auth.{validate}
use attow_nexus.Auth.Laws.{validate-granted}
use attow_nexus.Tests.Data.{platform, app, mpsc}
use attow_nexus.Tests.Storage.{store-IsReadable}
use attow_nexus.Tests.Live.{token_bytes}
use attow_nexus.Http.Reply.{reply, refusal, not_found}
use attow_nexus.Http.Bodies.{CheckpointBody}
use attow_nexus.Http.Events.{UniversalEventBody, try_from_value}
use attow_nexus.Http.Events.Spec.{IsEvent}
use attow_nexus.Http.Events.Laws.{try_from_value_iff}
use attow_nexus.Http.Handlers.{commit}
use attow_nexus.Http.Render.{commit_detail}
use attow_nexus.Http.Routes.{get_runs, serve}
use attow_nexus.Http.Routes.Refused.{IsRefused, serve-IsRefused}
use attow_nexus.Http.Routes.Replies.{commit_answers}
use attow_nexus.Ledger.Store.Laws.{view}

serve-IsRefused_example : IsRefused (serve platform mpsc "0.1.0" none get_runs app) app
serve-IsRefused_example =
    serve-IsRefused platform mpsc "0.1.0" none get_runs app refl refl token_bytes
      (λ expected token e. cc)

abbrev fields : Fields
fields = field "agent_id" (string "agent") (
    field "channel" (string "plans:main") (
      field "event_id" (string "event") (
        field "event_type" (string "custom") (
          field "framework" (string "custom") (
            field "run_id" (string "run") (
              field "schema_version" (string "nexus.universal.v1") (
                field "tags" (array (cons (string "tag") nil)) (
                  field "thread_id" (string "thread")
                    (field "timestamp_ms" (number (pos_int 5)) end)))))))))

abbrev body : UniversalEventBody
body = record {
  run_id = "run";
  thread_id = "thread";
  agent_id = "agent";
  framework = "custom";
  event_type = "custom";
  channel = "plans:main";
  tags = "tag" ∷ [];
  parent_commit_ids = [];
  metadata = object end;
}

try_from_value_iff_example :
    (try_from_value platform.is_match (object fields) ≡ reply body)
    ↔ ((obj : Fields) × (object fields ≡ object obj) × IsEvent platform.is_match obj body)
try_from_value_iff_example = try_from_value_iff platform.is_match (object fields) body

bearer_granted : validate platform (some "Bearer token") app.config ≡ Auth.granted
bearer_granted =
    (validate-granted platform (some "Bearer token") app.config token_bytes refl).1
      ("token", refl, refl)

commit_answers_example : commit platform mpsc "0.1.0" (some "Bearer token") "a" app ≡ (
  elim (view platform app.store "a") [
    | none ↦ refusal not_found "commit not found"
    | some c ↦ reply (commit_detail platform c)
  ],
  app,
)
commit_answers_example =
    commit_answers platform mpsc "0.1.0" (some "Bearer token") "a" app bearer_granted
      store-IsReadable

abbrev secret_body : CheckpointBody
secret_body = record {
  agent_id = "stranger";
  run_id = "run";
  thread_id = none;
  channel = "not found";
  state = object end;
  summary = none;
  objective = none;
  tags = [];
  parent_commit_ids = [];
  metadata = [];
  external_side_effects = none;
}
