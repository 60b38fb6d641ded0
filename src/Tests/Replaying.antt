-- ===== src/Tests/Replaying.antt =====
-- An example of a replay.
use attow_nexus.Prelude.{
  String, ◌≡◌, refl, ◌↔◌, inl, inr, true, false, eq_iff, contains, lookup, ok, arith, text-cases,
  or_nil, contains_key,
}
use attow_nexus.Proto.Messages.{ReplayRequest, ReplayResult}
use attow_nexus.Dag.{parents_of}
use attow_nexus.Dag.Walk.{IsParent, Reach}
use attow_nexus.Dag.Tests.{dag-IsAcyclic}
use attow_nexus.Tests.Data.{platform, store, dag}
use attow_nexus.Tests.Storage.{store-IsReadable}
use attow_nexus.Ledger.Replay.{replay}
use attow_nexus.Ledger.Replay.History.{IsUnique, IsHistory, graph}
use attow_nexus.Ledger.Replay.Total.{replay_total}

only_a : (x y : String) → IsParent dag.parents y x → "a" ≡ y
unfolding parents_of lookup or_nil contains
only_a x y e = elim (text-cases "a" x) [
  | inl same ↦ ground (arith, e, (eq_iff "a" x).1 same)
  | inr other ↦ elim (text-cases "b" x) [
    | inl same ↦ ground (arith, e, other, (eq_iff "b" x).1 same, eq_iff "a" y)
    | inr neither ↦ ground (arith, e, other, neither)
  ]
]

store-IsHistory : IsHistory platform store
unfolding graph contains_key
store-IsHistory = record {
  readable = store-IsReadable;
  acyclic = dag-IsAcyclic;
  known = λ x y e. rw (← only_a x y e) refl;
}

abbrev replay_b : ReplayRequest
replay_b = record { commit_id = "b"; mode = 1; confirm_reexecute_tools = false }

replay_total_example :
    (result : ReplayResult) × (replay platform replay_b store ≡ (ok result, store))
    × ((x : String)
        → contains x result.provenance_commit_ids ≡ true
          ↔ Reach (graph platform store.commits) x "b")
    × IsUnique result.provenance_commit_ids
replay_total_example =
    replay_total platform store replay_b store-IsHistory (unfold contains_key in refl) refl
