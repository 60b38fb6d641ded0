-- ===== src/Ledger/Rollback/Steady.antt =====
-- On rollbacks and forks: both move heads, and leave the table of commits as it is.
use attow_nexus.Prelude.Exec.{pure}
use attow_nexus.Prelude.{String, refl, not, ◌&&◌, List, [], ◌∷◌, ◌==◌}
use attow_nexus.Platform.{Platform}
use attow_nexus.Proto.{Commit}
use attow_nexus.Proto.Messages.{RollbackRequest, ForkRequest}
use attow_nexus.Dag.{DagIndex, ancestry, is_ancestor}
use attow_nexus.Ledger.Store.Calls.{get_commit}
use attow_nexus.Ledger.Store.Heads.{set_head, append_event}
use attow_nexus.Ledger.Store.Steady.{
  IsSteady, IsSteady-bind, IsSteady-if, IsSteady-found, get_commit-IsSteady, set_head-IsSteady,
  append_event-IsSteady,
}
use attow_nexus.Ledger.Rollback.{collect_warnings, move_head, moved_text, rollback, fork_run, fork}

module _ (p : Platform) where
  collect_warnings-IsSteady :
      (ids : List String) (target : String) → IsSteady (collect_warnings p ids target)
  unfolding collect_warnings
  collect_warnings-IsSteady [] target s h = (h, refl)
  collect_warnings-IsSteady (id ∷ ids) target s h =
      IsSteady-if (id == target) (pure []) _ (λ s h. (h, refl))
        (IsSteady-bind (get_commit p id) _ (get_commit-IsSteady p id) (λ found.
          IsSteady-bind (collect_warnings p ids target) _ (collect_warnings-IsSteady ids target)
            (λ _ s h. (h, refl))))
        s h

  move_head-IsSteady :
      (head target : Commit) (warnings : List String) → IsSteady (move_head p head target warnings)
  unfolding move_head
  move_head-IsSteady head target warnings =
      IsSteady-bind
        (set_head head.run_id head.thread_id head.agent_id head.channel target.commit_id) _
        (set_head-IsSteady head.run_id head.thread_id head.agent_id head.channel target.commit_id)
        (λ _. append_event-IsSteady p "rollback" (moved_text p head target warnings))

  pub rollback-IsSteady :
      (dag : DagIndex) (request : RollbackRequest) → IsSteady (rollback p dag request)
  unfolding rollback
  rollback-IsSteady dag request =
      IsSteady-if
        (not request.force && not (is_ancestor dag request.target_commit_id request.head_commit_id))
        _ _ (λ s h. (h, refl))
        (IsSteady-bind (get_commit p request.head_commit_id) _
          (get_commit-IsSteady p request.head_commit_id)
          (λ found_head.
            IsSteady-found found_head _ _ (λ s h. (h, refl))
              (λ head.
                IsSteady-bind (get_commit p request.target_commit_id) _
                  (get_commit-IsSteady p request.target_commit_id)
                  (λ found_target.
                    IsSteady-found found_target _ _ (λ s h. (h, refl))
                      (λ target.
                        IsSteady-bind
                          (collect_warnings p (ancestry dag request.head_commit_id)
                            request.target_commit_id)
                          _
                          (collect_warnings-IsSteady (ancestry dag request.head_commit_id)
                            request.target_commit_id)
                          (λ warnings.
                            IsSteady-bind (move_head p head target warnings) _
                              (move_head-IsSteady head target warnings) (λ _ s h. (h, refl))))))))

  fork_run-IsSteady : (run : String) → IsSteady (fork_run p run)
  unfolding fork_run
  fork_run-IsSteady run = IsSteady-if (run == "") _ _ (λ s h. (h, refl)) (λ s h. (h, refl))

  pub fork-IsSteady : (request : ForkRequest) → IsSteady (fork p request)
  unfolding fork
  fork-IsSteady request =
      IsSteady-bind (get_commit p request.source_commit_id) _
        (get_commit-IsSteady p request.source_commit_id)
        (λ found.
          IsSteady-found found _ _ (λ s h. (h, refl))
            (λ source.
              IsSteady-bind (fork_run p request.new_run_id) _ (fork_run-IsSteady request.new_run_id)
                (λ run.
                  IsSteady-bind
                    (set_head run source.thread_id source.agent_id source.channel source.commit_id)
                    _
                    (set_head-IsSteady run source.thread_id source.agent_id source.channel
                      source.commit_id)
                    (λ _.
                      IsSteady-bind (append_event p "fork" _) _ (append_event-IsSteady p "fork" _)
                        (λ _ s h. (h, refl))))))
