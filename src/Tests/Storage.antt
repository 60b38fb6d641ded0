-- ===== src/Tests/Storage.antt =====
-- Examples for the store, rollbacks, forks, replays and persistence.
use attow_nexus.Prelude.{
  pos, ◌↔◌, ◌==◌, none, subst, ◌≡◌, refl, sym, ◌⊎◌, inl, inr, String, true, false, none, some, List,
  [], ◌∷◌, eq_iff, text-cases, lookup, contains, contains_key, ok, err, arith,
}
use attow_nexus.Dag.Walk.{Reach, here}
use attow_nexus.Platform.{IsCompressor}
use attow_nexus.Json.{Fields, bool, string, end, field, get, has_key}
use attow_nexus.Proto.Messages.{BroadcastDelta, RollbackRequest, ForkRequest}
use attow_nexus.Dag.{ancestry}
use attow_nexus.Dag.Tests.{dag-IsAcyclic, a_above_b, dag_c, c_accepted}
use attow_nexus.Tests.Data.{platform, store, row_of, commit_of, commit_a, commit_b, dag, app}
use attow_nexus.Ledger.Store.Rows.{Store, CommitRow}
use attow_nexus.Proto.{Commit}
use attow_nexus.Ledger.Store.Calls.{append_commit, list_commits}
use attow_nexus.Ledger.Store.Heads.{get_head}
use attow_nexus.Ledger.Store.Artifacts.{put_artifact, get_artifact}
use attow_nexus.Ledger.Store.Listing.{AreHeld, chosen, is_selected, list_commits-view}
use attow_nexus.Ledger.Replay.History.{ids}
use attow_nexus.Ledger.Store.Laws.{view, IsReadable, append_commit-view}
use attow_nexus.Ledger.Store.{seconds_of}
use attow_nexus.Ledger.Store.Recount.{append_commit_recounts}
use attow_nexus.Ledger.Store.RoundTrip.{get_artifact-put_artifact}
use attow_nexus.Ledger.Rollback.Warnings.{collect_warnings_miss}
use attow_nexus.Ledger.Rollback.{collect_warnings, rollback, fork}
use attow_nexus.Ledger.Rollback.Laws.{warnings_before, rollback_moves}
use attow_nexus.Ledger.Rollback.ForkLaws.{fork_sets_head}
use attow_nexus.Ledger.Replay.{merge_fields, merge_value, get_or_null}
use attow_nexus.Ledger.Replay.Merge.{get-merge_fields}
use attow_nexus.Service.State.{App}
use attow_nexus.Service.Commits.{persist_commit}
use attow_nexus.Service.Commits.Persist.{IsInSync, persist_commit-IsInSync, persist_commit_diverges}

two_rows :
    (id : String) (row : CommitRow)
    → lookup id store.commits ≡ some row
    → (("a" ≡ id) × (row_of 1 ≡ row)) ⊎ (("b" ≡ id) × (row_of 2 ≡ row))
unfolding lookup
two_rows id row h = elim (text-cases "a" id) [
  | inl same ↦ inl (same, ground (arith, (eq_iff "a" id).1 same))
  | inr other ↦ elim (text-cases "b" id) [
    | inl same ↦ inr (same, ground (arith, other, (eq_iff "b" id).1 same))
    | inr neither ↦ ground (arith, other, neither)
  ]
]

pub store-IsReadable : IsReadable platform store
store-IsReadable = record {
  no_faults = refl;
  decodes = λ id row found. elim (two_rows id row found) [
    | inl (same, e) ↦ (commit_a, rw (← e) refl, same)
    | inr (same, e) ↦ (commit_b, rw (← e) refl, same)
  ];
}

abbrev bare : Store
bare = record store { commits = []; commit_parents = [] }

bare-IsReadable : IsReadable platform bare
unfolding lookup
bare-IsReadable = record { no_faults = refl; decodes = λ id row found. cc }

unknown : (id : String) → ("a" == id) ≡ false → ("b" == id) ≡ false → lookup id store.commits ≡ none
unfolding lookup
unknown id other neither = ground (arith, other, neither)

-- both commits are the target or below it, and other ids are in neither store
outside :
    (id : String) → ¬ Reach dag.parents "a" id → view platform store id ≡ view platform bare id
unfolding lookup
outside id apart = elim (text-cases "a" id) [
  | inl same ↦ absurd (apart (subst (λ z. Reach dag.parents "a" z) same here))
  | inr other ↦ elim (text-cases "b" id) [
    | inl same ↦ absurd (apart (subst (λ z. Reach dag.parents "a" z) same a_above_b))
    | inr neither ↦ rw (view, unknown id other neither) refl
  ]
]

append_commit-view_example :
    view platform (append_commit platform commit_b bare).1 "b" ≡ some commit_b
unfolding contains_key
append_commit-view_example = append_commit-view platform commit_b "b" bare refl refl

platform-IsCompressor : IsCompressor platform
platform-IsCompressor = record { zstd_round_trip = λ bytes stored e. sym e }

get_artifact-put_artifact_example :
    (get_artifact platform "artifact_hash"
      (put_artifact platform (1 ∷ 2 ∷ 3 ∷ []) "text/plain" store).1).0
    ≡ ok (some (1 ∷ 2 ∷ 3 ∷ []))
get_artifact-put_artifact_example =
    get_artifact-put_artifact platform (1 ∷ 2 ∷ 3 ∷ []) (1 ∷ 2 ∷ 3 ∷ []) "text/plain" store
      platform-IsCompressor refl refl

abbrev to_a : RollbackRequest
to_a = record { head_commit_id = "b"; target_commit_id = "a"; force = false }

abbrev to_b : RollbackRequest
to_b = record { head_commit_id = "a"; target_commit_id = "b"; force = false }

a_stored : view platform store "a" ≡ some commit_a
unfolding lookup
a_stored = refl

b_stored : view platform store "b" ≡ some commit_b
unfolding lookup
b_stored = refl

rollback_moves_example :
    ((rollback platform dag to_a store).0
      ≡ ok (record {
        moved = true;
        previous_head_commit_id = "b";
        new_head_commit_id = "a";
        warnings = warnings_before platform store "a" (ancestry dag "b");
      }))
    × ((get_head "run" "thread" "agent" "plans" (rollback platform dag to_a store).1).0
        ≡ ok (some "a"))
    × ((rollback platform dag to_a store).1.commits ≡ store.commits)
rollback_moves_example =
    rollback_moves platform dag to_a store commit_b commit_a store-IsReadable (inr a_above_b)
      b_stored a_stored

collect_warnings_miss_example :
    (collect_warnings platform (ancestry dag "b") "a" store).0
    ≡ (collect_warnings platform (ancestry dag "b") "a" bare).0
collect_warnings_miss_example =
    collect_warnings_miss platform dag "b" "a" store bare dag-IsAcyclic store-IsReadable
      bare-IsReadable outside

abbrev to_fork : ForkRequest
to_fork = record { source_commit_id = "a"; new_run_id = "run2"; metadata = none }

fork_sets_head_example :
    ((fork platform to_fork store).0
      ≡ ok (record { source_commit_id = "a"; run_id = "run2"; head_commit_id = "a" }))
    × ((get_head "run2" "thread" "agent" "plans" (fork platform to_fork store).1).0 ≡ ok (some "a"))
    × ((fork platform to_fork store).1.commits ≡ store.commits)
fork_sets_head_example =
    fork_sets_head platform to_fork store commit_a store-IsReadable refl a_stored

abbrev before : Fields
before = field "done" (bool false) (field "plan" (string "old") end)

abbrev patch : Fields
patch = field "plan" (string "new") end

get-merge_fields_example : get "done" (merge_fields before patch) ≡ elim (get "done" patch) [
  | none ↦ get "done" before
  | some v ↦ some (merge_value (get_or_null "done" before) v)
]
get-merge_fields_example = get-merge_fields before patch "done" (unfold has_key in refl, tt)

pub app-IsInSync : IsInSync app
unfolding contains_key
app-IsInSync = λ id. refl

persist_commit-IsInSync_example :
    ((persist_commit platform (commit_of "c" ("b" ∷ [])) app).0 ≡ ok tt)
    × IsInSync (persist_commit platform (commit_of "c" ("b" ∷ [])) app).1
    × ((persist_commit platform (commit_of "c" ("b" ∷ [])) app).1.dag ≡ dag_c)
    × ((get_head "run" "thread" "agent" "plans"
          (persist_commit platform (commit_of "c" ("b" ∷ [])) app).1.store).0
        ≡ ok (some "c"))
persist_commit-IsInSync_example =
    persist_commit-IsInSync platform (commit_of "c" ("b" ∷ [])) dag_c app refl app-IsInSync
      c_accepted

abbrev failing : App (List BroadcastDelta)
failing = record app { store = record store { faults = some "disk full" ∷ [] } }

persist_commit_diverges_example :
    let (result, after) = persist_commit platform (commit_of "c" ("b" ∷ [])) failing in
    (result ≡ err "disk full")
    × (after.store.heads ≡ failing.store.heads)
    × (contains_key "c" after.dag.parents ≡ true)
    × (contains_key "c" after.store.commits ≡ false)
    × (IsInSync after ↔ (false ≡ true))
persist_commit_diverges_example =
    persist_commit_diverges platform false (commit_of "c" ("b" ∷ [])) dag_c "disk full" [] failing
      refl app-IsInSync (unfold contains_key in refl) c_accepted

abbrev counted : Store
counted = record store { runs = ("run", record { last_commit_at = pos 0; commit_count = 2 }) ∷ [] }

append_commit_recounts_example :
    ((append_commit platform commit_b counted).1.commits ≡ counted.commits)
    × (lookup "run" (append_commit platform commit_b counted).1.runs
        ≡ some (record { last_commit_at = seconds_of none; commit_count = 3 }))
append_commit_recounts_example =
    append_commit_recounts platform commit_b (record { last_commit_at = pos 0; commit_count = 2 })
      counted refl (unfold contains_key in refl) (unfold lookup in refl)

list_commits-view_example :
    (cs : List Commit) × (list_commits platform (some "run") none (some "plans") store
      ≡ (ok cs, store))
    × AreHeld (view platform store) cs
    × ((id : String)
        → contains id (ids cs)
          ≡ chosen (is_selected (some "run") none (some "plans")) (view platform store id))
unfolding contains
list_commits-view_example =
    list_commits-view platform (some "run") none (some "plans") store store-IsReadable
      (refl, (refl, tt))
