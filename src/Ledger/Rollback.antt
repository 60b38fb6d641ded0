-- ===== src/Ledger/Rollback.antt =====
-- daemon/src/ledger/rollback.rs and fork.rs: a head is moved to another commit, and the move is
-- recorded as an event.
pub mod Laws
pub mod ForkLaws
pub mod Warnings
pub mod Steady
use attow_nexus.Prelude.Exec.{Exec, pure, bail, gets, modify, ◌>>=◌, ◌>>◌}
use attow_nexus.Prelude.{
  ℕ, suc, String, ◌<>◌, Bool, true, false, ◌&&◌, not, Option, none, some, List, [], ◌∷◌, ◌++◌, map,
  ◌==◌, if◌then◌else◌, concat,
}
use attow_nexus.Platform.{Platform}
use attow_nexus.Json
use attow_nexus.Json.{Value, Items, string, array, nil, cons}
use attow_nexus.Proto.{Commit, ExternalSideEffect}
use attow_nexus.Proto.Messages.{RollbackRequest, RollbackResponse, ForkRequest, ForkResult}
use attow_nexus.Dag.{DagIndex, is_ancestor, ancestry}
use attow_nexus.Ledger.Store.Rows.{Store}
use attow_nexus.Ledger.Store.Calls.{get_commit}
use attow_nexus.Ledger.Store.Heads.{set_head, append_event}

rollback_warning : String → ExternalSideEffect → String
rollback_warning id effect = concat (
    "Commit " ∷ id ∷ " includes external side effect '" ∷ effect.side_effect_id ∷ "' of kind '"
    ∷ effect.kind ∷ "'. Rollback moves captured logical state only." ∷ [])

warnings_of : Option Commit → List String
unfolding rollback_warning
warnings_of none = []
warnings_of (some c) = map (rollback_warning c.commit_id) c.external_side_effects

texts : List String → Items
texts [] = nil
texts (t ∷ ts) = cons (string t) (texts ts)

-- `new_id` of util/ids.rs
unfoldable pub new_id : Platform → String → ℕ → String
new_id p prefix n = concat (prefix ∷ "_" ∷ p.uuid n ∷ [])

module _ (p : Platform) where
  -- The loop over the ancestry of the head, which stops at the target.
  pub collect_warnings : List String → String → Exec Store (List String)
  unfolding warnings_of
  collect_warnings [] target = pure []
  collect_warnings (id ∷ rest) target = if id == target then pure [] else do
    found ← get_commit p id
    more ← collect_warnings rest target
    pure (warnings_of found ++ more)

  moved_text : Commit → Commit → List String → String
  unfolding texts
  moved_text head target warnings = p.to_json_text (
      Json.json (
        ("previous_head_commit_id", string head.commit_id)
        ∷ ("new_head_commit_id", string target.commit_id)
        ∷ ("warnings", array (texts warnings))
        ∷ []))

  move_head : Commit → Commit → List String → Exec Store Unit
  unfolding moved_text
  move_head head target warnings = do
    set_head head.run_id head.thread_id head.agent_id head.channel target.commit_id
    append_event p "rollback" (moved_text head target warnings)

  pub rollback : DagIndex → RollbackRequest → Exec Store RollbackResponse
  unfolding move_head
  rollback dag request =
      if not request.force && not (is_ancestor dag request.target_commit_id request.head_commit_id)
      then bail
          "target commit is not an ancestor of the current head; use force to move the head anyway"
      else do
        found_head ← get_commit p request.head_commit_id
        elim found_head [
          | none ↦ bail "head commit not found"
          | some head ↦ do
            found_target ← get_commit p request.target_commit_id
            elim found_target [
              | none ↦ bail "target commit not found"
              | some target ↦ do
                warnings ←
                    collect_warnings (ancestry dag request.head_commit_id) request.target_commit_id
                move_head head target warnings
                pure (record {
                  moved = true;
                  previous_head_commit_id = request.head_commit_id;
                  new_head_commit_id = request.target_commit_id;
                  warnings = warnings;
                })
            ]
        ]

  -- `if new_run_id.is_empty() { new_id("run") }`
  fork_run : String → Exec Store String
  fork_run run =
      if run == ""
      then (λ s. (pure (new_id p "run" s.ticks) (record s { ticks = suc s.ticks })))
      else pure run

  pub fork : ForkRequest → Exec Store ForkResult
  unfolding fork_run
  fork request = do
    found ← get_commit p request.source_commit_id
    elim found [
      | none ↦ bail "source commit not found"
      | some source ↦ do
        run ← fork_run request.new_run_id
        set_head run source.thread_id source.agent_id source.channel source.commit_id
        append_event p "fork" (
            p.to_json_text (
              Json.json
                (("source_commit_id", string source.commit_id) ∷ ("run_id", string run) ∷ [])))
        pure (record {
          source_commit_id = request.source_commit_id;
          run_id = run;
          head_commit_id = request.source_commit_id;
        })
    ]
