-- ===== src/Service/Export.antt =====
-- `export_run_inner` of `AppState`.
use attow_nexus.Prelude.Exec.{Exec, pure, ◌>>=◌}
use attow_nexus.Prelude.{List, [], ◌∷◌, some, none, ◌==◌, if◌then◌else◌, length}
use attow_nexus.Platform.{Platform}
use attow_nexus.Json
use attow_nexus.Json.{Value, Items, string, array, nil, cons}
use attow_nexus.Proto.{Commit}
use attow_nexus.Proto.Messages.{ExportRunRequest, ExportRunResponse}
use attow_nexus.Ledger.Diff.{natural}
use attow_nexus.Ledger.Store.Calls.{list_commits}
use attow_nexus.Service.State.{App, on_store}
use attow_nexus.Service.Commits.{json_payload}

exported : Commit → Value
exported commit = Json.json (
    ("commit_id", string commit.commit_id)
    ∷ ("delta_id", string commit.delta_id)
    ∷ ("agent_id", string commit.agent_id)
    ∷ ("channel", string commit.channel)
    ∷ ("summary", string commit.summary)
    ∷ [])

exported_all : List Commit → Items
unfolding exported
exported_all [] = nil
exported_all (commit ∷ rest) = cons (exported commit) (exported_all rest)

export_json : ExportRunRequest → List Commit → Value
unfolding exported_all
export_json request commits = Json.json (
    ("run_id", string request.run_id)
    ∷ ("format", string (if request.format == "" then "json" else request.format))
    ∷ ("commit_count", natural (length commits))
    ∷ ("commits", array (exported_all commits))
    ∷ [])

unfoldable pub export_run_inner :
    Platform → {Chan : Type 0} → ExportRunRequest → Exec (App Chan) ExportRunResponse
unfolding export_json
export_run_inner p request = do
  commits ← on_store (list_commits p (some request.run_id) none none)
  pure (record {
    run_id = request.run_id;
    export_payload = some (json_payload p (p.to_vec (export_json request commits)));
  })
