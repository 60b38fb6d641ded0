-- ===== src/Ledger/Replay.antt =====
-- daemon/src/ledger/replay.rs: the captured state is rebuilt from the ancestry of a commit.
pub mod Merge
pub mod History
pub mod Gather
pub mod Total
pub mod Steady
pub mod Written
use attow_nexus.Prelude.Exec.{Exec, pure, bail, gets, ◌>>=◌}
use attow_nexus.Prelude.{
  ℕ, zero, suc, String, Bool, true, false, ◌&&◌, not, Option, none, some, List, [], ◌∷◌, ◌++◌, map,
  ◌==◌, eqb, ltb, if◌then◌else◌, length, any, concat, ℤ, leb_ℤ, sort,
}
use attow_nexus.Platform.{Platform}
use attow_nexus.Json
use attow_nexus.Json.{Value, Fields, null, object, end, field, get}
use attow_nexus.Proto.{Commit, Payload, ToolResult, ArtifactRef, ExternalSideEffect}
use attow_nexus.Proto.Messages.{ReplayRequest, ReplayResult}
use attow_nexus.Ledger.Store.{seconds_of}
use attow_nexus.Ledger.Store.Rows.{Store}
use attow_nexus.Ledger.Store.Calls.{get_commit}
use attow_nexus.Ledger.Diff.{payload_to_json}

-- `target.entry(key).or_insert(Null)`
abbrev pub get_or_null : String → Fields → Value
get_or_null key fs = elim (get key fs) [ none ↦ null | some v ↦ v ]

unfoldable mutual
  pub merge_value : Value → Value → Value
  merge_value (object target) (object patch) = object (merge_fields target patch)
  merge_value target patch = patch

  pub merge_fields : Fields → Fields → Fields
  merge_fields target end = target
  merge_fields target (field key value patch) =
      merge_fields (Json.insert key (merge_value (get_or_null key target) value) target) patch

-- the key of the sort: logical clock, then seconds
unfoldable pub replay_before : Commit → Commit → Bool
replay_before a b =
    if eqb a.logical_clock b.logical_clock
    then leb_ℤ (seconds_of a.wall_time) (seconds_of b.wall_time)
    else ltb a.logical_clock b.logical_clock

-- What the loop of `replay` accumulates.
pub record Replayed : Type 0 where
  pub state : Value
  pub side_effect_warnings : List String
  pub provenance : List String
  pub tool_outputs : List ToolResult
  pub artifacts : List ArtifactRef

abbrev pub nothing : Replayed
nothing = record {
  state = object end;
  side_effect_warnings = [];
  provenance = [];
  tool_outputs = [];
  artifacts = [];
}

effect_warning : ExternalSideEffect → String
effect_warning effect = concat (
    "External side effect '" ∷ effect.side_effect_id ∷ "' of kind '" ∷ effect.kind
    ∷ "' is irreversible unless an adapter supplies a compensating action." ∷ [])

-- The `for` loop of `collect` over the parents, with the recursive call handed in.
pub collect_each :
    (String → List Commit → Exec Store (List Commit))
    → List String
    → List Commit
    → Exec Store (List Commit)
collect_each visit [] out = pure out
collect_each visit (parent ∷ rest) out = do below ← visit parent out; collect_each visit rest below

-- `if !out.iter().any(..) { out.push(commit) }`
pub push_new : Commit → List Commit → List Commit
push_new c out = if any (λ e. e.commit_id == c.commit_id) out then out else out ++ c ∷ []

module _ (p : Platform) where
  -- Fuel for the depth of the recursion; without it, the stack overflows.
  pub collect : ℕ → String → List Commit → Exec Store (List Commit)
  unfolding push_new
  collect zero id out = bail "stack overflow"
  collect (suc fuel) id out = do
    found ← get_commit p id
    elim found [
      | none ↦ bail (concat ("commit " ∷ id ∷ " not found" ∷ []))
      | some commit ↦ do
        below ← collect_each (collect fuel) commit.parent_commit_ids out
        pure (push_new commit below)
    ]

  -- A chain of parents that are all stored is no longer than the table of commits.
  pub ancestry_commits : String → Exec Store (List Commit)
  ancestry_commits id = do fuel ← gets (λ s. suc (length s.commits)); collect fuel id []

  -- One round of the loop of `replay`.
  pub replay_commit : Replayed → Commit → Replayed
  unfolding effect_warning
  replay_commit r c = record {
    state = merge_value r.state (payload_to_json p c.state_delta);
    side_effect_warnings = r.side_effect_warnings ++ map effect_warning c.external_side_effects;
    provenance = r.provenance ++ c.commit_id ∷ [];
    tool_outputs = r.tool_outputs ++ c.tool_results;
    artifacts = r.artifacts ++ c.artifact_refs;
  }

  pub replay_all : Replayed → List Commit → Replayed
  replay_all r [] = r
  replay_all r (c ∷ cs) = replay_all (replay_commit r c) cs

  state_payload : Value → Payload
  state_payload state = record {
    encoding = 2;
    content = p.to_vec state;
    struct_data = none;
    size_bytes = length (p.to_vec state);
    content_hash = p.blake3_hex (p.to_vec state);
    compressed = false;
    artifact_ref = "";
  }

  pub replay_result : ReplayRequest → Replayed → ReplayResult
  unfolding state_payload
  replay_result request r = record {
    commit_id = request.commit_id;
    reconstructed_state = some (state_payload r.state);
    messages = [];
    tool_outputs = r.tool_outputs;
    artifacts = r.artifacts;
    side_effect_warnings = r.side_effect_warnings;
    provenance_commit_ids = r.provenance;
    missing_artifact_warnings = [];
  }

  -- Mode 3 is `ReexecuteTools`; an unknown mode counts as `StateOnly`.
  pub replay : ReplayRequest → Exec Store ReplayResult
  unfolding replay_result
  replay request =
      if eqb request.mode 3 && not request.confirm_reexecute_tools
      then bail "reexecute_tools requires explicit confirmation"
      else do
        commits ← ancestry_commits request.commit_id
        pure (replay_result request (replay_all nothing (sort replay_before commits)))
