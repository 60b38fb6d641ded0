-- ===== src/Ledger/Replay/Steady.antt =====
-- On replays of any store that works: they only read.
use attow_nexus.Prelude.Exec.{Exec}
use attow_nexus.Prelude.{ℕ, zero, suc, String, refl, ◌&&◌, not, List, [], ◌∷◌, eqb, length}
use attow_nexus.Platform.{Platform}
use attow_nexus.Proto.{Commit}
use attow_nexus.Proto.Messages.{ReplayRequest}
use attow_nexus.Ledger.Store.Rows.{Store}
use attow_nexus.Ledger.Store.Calls.{get_commit}
use attow_nexus.Ledger.Store.Steady.{
  IsSteady, IsSteady-bind, IsSteady-if, IsSteady-found, get_commit-IsSteady,
}
use attow_nexus.Ledger.Replay.{collect_each, collect, ancestry_commits, replay}

collect_each-IsSteady :
    (visit : String → List Commit → Exec Store (List Commit))
    → ((id : String) (out : List Commit) → IsSteady (visit id out))
    → (ids : List String) (out : List Commit) → IsSteady (collect_each visit ids out)
unfolding collect_each
collect_each-IsSteady visit each [] out s h = (h, refl)
collect_each-IsSteady visit each (id ∷ ids) out s h =
    IsSteady-bind (visit id out) _ (each id out) (collect_each-IsSteady visit each ids) s h

module _ (p : Platform) where
  collect-IsSteady : (fuel : ℕ) (id : String) (out : List Commit) → IsSteady (collect p fuel id out)
  unfolding collect
  collect-IsSteady zero id out s h = (h, refl)
  collect-IsSteady (suc fuel) id out s h =
      IsSteady-bind (get_commit p id) _ (get_commit-IsSteady p id)
        (λ found.
          IsSteady-found found _ _ (λ t g. (g, refl))
            (λ commit.
              IsSteady-bind (collect_each (collect p fuel) commit.parent_commit_ids out) _
                (collect_each-IsSteady (collect p fuel) (collect-IsSteady fuel)
                  commit.parent_commit_ids out)
                (λ _ t g. (g, refl))))
        s h

  ancestry_commits-IsSteady : (id : String) → IsSteady (ancestry_commits p id)
  unfolding ancestry_commits
  ancestry_commits-IsSteady id s h = collect-IsSteady (suc (length s.commits)) id [] s h

  pub replay-IsSteady : (request : ReplayRequest) → IsSteady (replay p request)
  unfolding replay
  replay-IsSteady request =
      IsSteady-if (eqb request.mode 3 && not request.confirm_reexecute_tools) _ _ (λ s h. (h, refl))
        (IsSteady-bind (ancestry_commits p request.commit_id) _
          (ancestry_commits-IsSteady request.commit_id) (λ _ s h. (h, refl)))
