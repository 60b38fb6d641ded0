-- ===== src/Ledger/Rollback/ForkLaws.antt =====
-- On `fork` of daemon/src/ledger/fork.rs.
use attow_nexus.Prelude.{◌≡◌, refl, ◌∙◌, false, some, [], ◌∷◌, ◌==◌, ok}
use attow_nexus.Platform.{Platform}
use attow_nexus.Json
use attow_nexus.Json.{string}
use attow_nexus.Proto.{Commit}
use attow_nexus.Proto.Messages.{ForkRequest}
use attow_nexus.Ledger.Store.Rows.{Store}
use attow_nexus.Ledger.Store.Heads.{write_head, append_event, get_head}
use attow_nexus.Ledger.Store.Laws.{view, IsReadable, get_commit-view}
use attow_nexus.Ledger.Rollback.{fork_run, fork}
use attow_nexus.Ledger.Rollback.Laws.{head_written, set_head_healthy, append_event_healthy}

module _ (p : Platform) where
  -- On a readable store a fork of a stored commit into a named run succeeds: the commit is then the
  -- head of the new run, under the source's thread, agent and channel, and no commit is changed.
  pub fork_sets_head :
      (request : ForkRequest) (s : Store) (source : Commit)
      → IsReadable p s
      → (request.new_run_id == "") ≡ false
      → view p s request.source_commit_id ≡ some source
      → ((fork p request s).0
          ≡ ok (record {
            source_commit_id = request.source_commit_id;
            run_id = request.new_run_id;
            head_commit_id = request.source_commit_id;
          }))
        × ((get_head request.new_run_id source.thread_id source.agent_id source.channel
              (fork p request s).1).0
            ≡ ok (some source.commit_id))
        × ((fork p request s).1.commits ≡ s.commits)
  unfolding fork fork_run
  fork_sets_head request s source r named h =
      let t =
        write_head request.new_run_id source.thread_id source.agent_id source.channel
          source.commit_id s in
      let t_healthy : t.faults ≡ [] = unfold write_head in r.no_faults in
      let text = p.to_json_text (
        Json.json (
          ("source_commit_id", string source.commit_id)
          ∷ ("run_id", string request.new_run_id)
          ∷ [])) in
      let (done, heads, commits, faults) = append_event_healthy p "fork" text t t_healthy in
      let read =
        head_written request.new_run_id source.thread_id source.agent_id source.channel
          source.commit_id s (append_event p "fork" text t).1 r.no_faults faults heads in
      rw (get_commit-view p request.source_commit_id s r) (
        rw h (
          rw named (
            rw
              (set_head_healthy p request.new_run_id source.thread_id source.agent_id source.channel
                source.commit_id s r.no_faults)
              (rw done (refl, read, commits ∙ (unfold write_head in refl))))))
