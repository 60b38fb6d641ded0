-- ===== src/Startup/Laws.antt =====
-- On `run` of daemon/src/lib.rs up to the listeners: the state that it hands to them.
use attow_nexus.Prelude.{◌≡◌, refl, ◌∙◌, Bool, List, [], Result, ok}
use attow_nexus.Platform.{Platform}
use attow_nexus.Proto.{Commit}
use attow_nexus.Config.{Config}
use attow_nexus.Config.Policy.{validate_network_policy}
use attow_nexus.Dag.Append.{IsWellFormed}
use attow_nexus.Dag.Startup.{IsLoadable, from_commits-IsWellFormed, from_commits-is_ok}
use attow_nexus.Ledger.Replay.History.{IsUnique}
use attow_nexus.Ledger.Store.Rows.{Store}
use attow_nexus.Ledger.Store.Calls.{list_all_commits}
use attow_nexus.Ledger.Store.Laws.{IsReadable}
use attow_nexus.Metrics
use attow_nexus.Bus.State
use attow_nexus.Service.State.{App}
use attow_nexus.Service.Commits.Persist.{IsInSync}
use attow_nexus.Startup.{context, prepare, new_state, load, start}
use attow_nexus.Ledger.Store.EachRow.{names}
use attow_nexus.Startup.Stored.{contains_key-from_commits, list_all_commits-ids}

module _ (p : Platform) {Chan : Type 0} where
  -- On a prepared configuration that the network policy passes, and an opened store that can be
  -- read, with unique keys, whose listed commits have ids of their own and come after their
  -- parents, the daemon starts: its graph is well formed and in step with the store, which is as
  -- it was opened, and nobody has a grant.
  pub start-IsInSync :
      (made : Result (Unit {0})) (built : Bool) (config : Config) (s : Store)
      → prepare made built config ≡ ok tt
      → validate_network_policy config ≡ ok tt
      → IsReadable p s
      → IsUnique (names s.commits)
      → ((cs : List Commit) → list_all_commits p s ≡ (ok cs, s) → IsLoadable [] cs)
      → (app : App Chan) × (start p made built config (ok s) ≡ ok app)
        × IsInSync app
        × IsWellFormed app.dag
        × (app.store ≡ s)
        × (app.grants ≡ [])
  unfolding start load context new_state
  start-IsInSync made built config s prepared allowed readable unique loadable =
      let (cs, listed, same) = list_all_commits-ids p s readable unique in
      let (dag, built_dag) = from_commits-is_ok cs (loadable cs listed) in
      (
        new_state config (State.new Metrics.default) s dag,
        rw (prepared, allowed, listed, built_dag) refl,
        λ id. contains_key-from_commits cs dag id built_dag ∙ same id,
        from_commits-IsWellFormed cs dag built_dag,
        refl,
        refl,
      )
