-- ===== src/Tests/Running.antt =====
-- An example of a run of the daemon, and of a replay after it.
use attow_nexus.Prelude.{
  ℕ, String, ◌≡◌, refl, ap, ◌⊎◌, ◌↔◌, inl, inr, true, false, some, List, [], ◌∷◌, eq_iff, contains,
  contains-nil, contains_key, lookup, or_nil, ok, arith, text-cases,
}
use attow_nexus.Proto.Messages
use attow_nexus.Proto.Messages.{ReplayRequest, ReplayResult, BroadcastDelta}
use attow_nexus.Dag.{ancestry, parents_of}
use attow_nexus.Dag.Tests.{dag-IsWellFormed}
use attow_nexus.Ledger.Replay.History.{IsUnique}
use attow_nexus.Ledger.Store.Rows.{Store, CommitRow}
use attow_nexus.Ledger.Store.Laws.{IsReadable}
use attow_nexus.Service.State.{App}
use attow_nexus.Service.Publish.{replay_inner}
use attow_nexus.Service.Publish.Denied.{publish_denied}
use attow_nexus.Service.Steady.{IsHealthy, Step}
use attow_nexus.Http.Routes.{get_runs, serve}
use attow_nexus.Http.Routes.Steps.{serve-IsStep}
use attow_nexus.Service.Steady.Sound.{IsSound}
use attow_nexus.Service.Steady.Reached.{Reached, here, streamed, Reached-IsHealthy}
use attow_nexus.Service.Steady.History.{IsFaithfulRun, replay-Reached}
use attow_nexus.Grpc.Stream.{on_event, publish}
use attow_nexus.Tests.Data.{app, commit_a, commit_b, delta_of, mpsc, row_of, store}
use attow_nexus.Tests.Live.{no_grant, unasked}
use attow_nexus.Tests.Codec.{encode, decode-encode, encoder, encoder-IsParentCodec}

abbrev row_a : CommitRow
row_a = record (row_of 1) { proto = encode commit_a }

abbrev row_b : CommitRow
row_b = record (row_of 2) { proto = encode commit_b }

abbrev kept_store : Store
kept_store = record store { commits = ("a", row_a) ∷ ("b", row_b) ∷ [] }

abbrev running : App (List BroadcastDelta)
running = record app { store = kept_store }

rows :
    (id : String) (row : CommitRow)
    → lookup id kept_store.commits ≡ some row
    → ("a" ≡ id) × (row_a ≡ row) ⊎ ("b" ≡ id) × (row_b ≡ row)
unfolding lookup
rows id row h = elim (text-cases "a" id) [
  | inl same ↦ inl (same, ground (arith, (eq_iff "a" id).1 same))
  | inr other ↦ elim (text-cases "b" id) [
    | inl same ↦ inr (same, ground (arith, other, (eq_iff "b" id).1 same))
    | inr neither ↦ ground (arith, other, neither)
  ]
]

kept_store-IsReadable : IsReadable encoder kept_store
kept_store-IsReadable = record {
  no_faults = refl;
  decodes = λ id row found. elim (rows id row found) [
    | inl (same, e) ↦ (commit_a, rw (← e) (decode-encode commit_a), same)
    | inr (same, e) ↦ (commit_b, rw (← e) (decode-encode commit_b), same)
  ];
}

running-IsSound : IsSound encoder running
unfolding contains_key lookup or_nil
running-IsSound = record {
  readable = kept_store-IsReadable;
  sync = λ id. refl;
  formed = dag-IsWellFormed;
  agree = λ id. elim (text-cases "a" id) [
    | inl same ↦ rw (← same) (rw (decode-encode commit_a) refl)
    | inr other ↦ elim (text-cases "b" id) [
      | inl same ↦ rw (← same) (rw (decode-encode commit_b) refl)
      | inr neither ↦ rw (other, neither) refl
    ]
  ];
}

abbrev after : App (List BroadcastDelta)
after = (on_event encoder mpsc "0.1.0" (some (Messages.publish_delta unasked)) running).1

-- the message is refused
abbrev refused_run : Reached encoder mpsc "0.1.0" running after
refused_run = streamed here (some (Messages.publish_delta unasked))

after_same : (n : ℕ) × (after ≡ record running { ticks = n })
unfolding on_event publish
after_same =
    let (n, e) =
      publish_denied encoder mpsc "0.1.0" unasked (record (delta_of true) { agent_id = "stranger" })
        running refl refl (λ scope on. contains-nil scope (no_grant scope on)) in
    (n, ap (λ r. r.1) e)

refused_run-IsFaithful : IsFaithfulRun encoder mpsc "0.1.0" refused_run
refused_run-IsFaithful = (tt, λ id there. ap (λ s. parents_of s.dag.parents id) after_same.1)

abbrev replay_b : ReplayRequest
replay_b = record { commit_id = "b"; mode = 1; confirm_reexecute_tools = false }

Reached-IsHealthy_example : IsHealthy after
Reached-IsHealthy_example =
    Reached-IsHealthy encoder mpsc "0.1.0" (refl, running-IsSound.sync) refused_run

replay-Reached_example :
    (result : ReplayResult) × (replay_inner encoder replay_b after ≡ (ok result, after))
    × ((x : String)
        → contains x result.provenance_commit_ids ≡ true
          ↔ contains x (ancestry after.dag "b") ≡ true)
    × IsUnique result.provenance_commit_ids
replay-Reached_example =
    replay-Reached encoder mpsc "0.1.0" encoder-IsParentCodec replay_b running-IsSound refused_run
      refused_run-IsFaithful there refl
  where
    there : contains_key "b" after.dag.parents ≡ true
    there = rw after_same.1 (unfold contains_key in refl)

serve-IsStep_example :
    Step encoder running (serve encoder mpsc "0.1.0" (some "Bearer token") get_runs running).1
serve-IsStep_example = serve-IsStep encoder mpsc "0.1.0" (some "Bearer token") get_runs running refl
