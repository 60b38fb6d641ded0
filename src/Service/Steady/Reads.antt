-- ===== src/Service/Steady/Reads.antt =====
-- The other operations of `AppState`: none touches the graph or the table of commits.
use attow_nexus.Prelude.{refl, String, Option, some, none, ok_or, ok, err}
use attow_nexus.Prelude.Exec.{lift, pure, ◌>>=◌}
use attow_nexus.Platform.{Platform}
use attow_nexus.Proto.Messages.{
  RegisterAgentRequest, RollbackRequest, ForkRequest, ReplayRequest, DiffCommitsRequest,
  ExportRunRequest,
}
use attow_nexus.Ledger.Diff.{diff_commits}
use attow_nexus.Ledger.Rollback.{fork}
use attow_nexus.Ledger.Rollback.Steady.{rollback-IsSteady, fork-IsSteady}
use attow_nexus.Ledger.Replay.{replay}
use attow_nexus.Ledger.Replay.Steady.{replay-IsSteady}
use attow_nexus.Ledger.Store.Calls.{get_commit, list_commits}
use attow_nexus.Ledger.Store.Heads.{list_runs}
use attow_nexus.Ledger.Store.Steady.{get_commit-IsSteady, list_commits-IsSteady, list_runs-IsSteady}
use attow_nexus.Service.State.{on_store}
use attow_nexus.Service.Export.{export_run_inner}
use attow_nexus.Service.Publish.{
  nonempty, base_commit, register_agent_inner, diff_inner, replay_inner, fork_inner, rollback_inner,
  get_commit_inner, list_commits_inner, list_runs_inner,
}
use attow_nexus.Service.Steady.{IsQuiet, IsQuiet-bind, IsQuiet-continue, IsQuiet-on_store}

module _ (p : Platform) {Chan : Type 0} where
  pub register_agent_inner-IsQuiet :
      (request : RegisterAgentRequest) → IsQuiet (register_agent_inner p {Chan = Chan} request)
  unfolding register_agent_inner
  register_agent_inner-IsQuiet request s h = (h, refl, refl)

  pub rollback_inner-IsQuiet :
      (request : RollbackRequest) → IsQuiet (rollback_inner p {Chan = Chan} request)
  unfolding rollback_inner
  rollback_inner-IsQuiet request s h =
      let (h', same) = rollback-IsSteady p s.dag request s.store h in (h', same, refl)

  pub fork_inner-IsQuiet : (request : ForkRequest) → IsQuiet (fork_inner p {Chan = Chan} request)
  unfolding fork_inner
  fork_inner-IsQuiet request = IsQuiet-on_store (fork p request) (fork-IsSteady p request)

  pub replay_inner-IsQuiet :
      (request : ReplayRequest) → IsQuiet (replay_inner p {Chan = Chan} request)
  unfolding replay_inner
  replay_inner-IsQuiet request = IsQuiet-on_store (replay p request) (replay-IsSteady p request)

  on_get_commit-IsQuiet : (id : String) → IsQuiet {Chan = Chan} (on_store (get_commit p id))
  on_get_commit-IsQuiet id = IsQuiet-on_store (get_commit p id) (get_commit-IsSteady p id)

  pub on_list_commits-IsQuiet :
      (run thread channel : Option String)
      → IsQuiet {Chan = Chan} (on_store (list_commits p run thread channel))
  on_list_commits-IsQuiet run thread channel =
      IsQuiet-on_store (list_commits p run thread channel)
        (list_commits-IsSteady p run thread channel)

  pub get_commit_inner-IsQuiet : (id : String) → IsQuiet (get_commit_inner p {Chan = Chan} id)
  unfolding get_commit_inner
  get_commit_inner-IsQuiet id =
      IsQuiet-bind (on_store (get_commit p id)) _ (on_get_commit-IsQuiet id)
        (λ found s h. (h, refl, refl))

  pub diff_inner-IsQuiet :
      (request : DiffCommitsRequest) → IsQuiet (diff_inner p {Chan = Chan} request)
  unfolding diff_inner
  diff_inner-IsQuiet request s h =
      from_base (elim (base_commit p request s).0 [ ok id ↦ id | err e ↦ "" ]) s h
    where
      from_base :
          (from_id : String)
          → IsQuiet {Chan = Chan} (do
            found_from ← on_store (get_commit p from_id)
            from ← lift (ok_or found_from "from commit not found")
            found_to ← on_store (get_commit p request.to_commit_id)
            to ← lift (ok_or found_to "to commit not found")
            pure (diff_commits p from to))
      from_base from_id =
          IsQuiet-bind (on_store (get_commit p from_id)) _ (on_get_commit-IsQuiet from_id)
            (λ found_from s h.
              IsQuiet-continue (ok_or found_from "from commit not found") _ s s (h, refl, refl)
                (λ from.
                  IsQuiet-bind (on_store (get_commit p request.to_commit_id)) _
                    (on_get_commit-IsQuiet request.to_commit_id)
                    (λ found_to t g.
                      IsQuiet-continue (ok_or found_to "to commit not found") _ t t (g, refl, refl)
                        (λ to u k. (k, refl, refl)))))

  pub list_commits_inner-IsQuiet :
      (run thread channel : String)
      → IsQuiet (list_commits_inner p {Chan = Chan} run thread channel)
  unfolding list_commits_inner
  list_commits_inner-IsQuiet run thread channel =
      on_list_commits-IsQuiet (nonempty run) (nonempty thread) (nonempty channel)

  pub export_run_inner-IsQuiet :
      (request : ExportRunRequest) → IsQuiet (export_run_inner p {Chan = Chan} request)
  unfolding export_run_inner
  export_run_inner-IsQuiet request =
      IsQuiet-bind (on_store (list_commits p (some request.run_id) none none)) _
        (on_list_commits-IsQuiet (some request.run_id) none none) (λ _ s h. (h, refl, refl))

pub list_runs_inner-IsQuiet : {Chan : Type 0} → IsQuiet (list_runs_inner {Chan = Chan})
unfolding list_runs_inner
list_runs_inner-IsQuiet = IsQuiet-on_store list_runs list_runs-IsSteady
