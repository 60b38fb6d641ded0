-- ===== src/Service/Commits.antt =====
-- The parts of a write: permission, payload, parents, persistence, loop inspection.
pub mod Persist
pub mod Normalize
pub mod Inspect
use attow_nexus.Prelude.Exec.{Exec, pure, bail, lift, gets, modify, ◌>>=◌, ◌>>◌}
use attow_nexus.Prelude.{
  ℕ, suc, String, ◌<>◌, Bool, true, false, not, Option, none, some, List, [], ◌∷◌, ◌++◌, ◌==◌, ltb,
  if◌then◌else◌, length, is_empty, Assoc, lookup, or_nil, Result, ok, err, pos, inc64,
}
use attow_nexus.Platform.{Platform}
use attow_nexus.Json
use attow_nexus.Json.{Value, string}
use attow_nexus.Proto.{Payload, RedactionReport, ArtifactRef, Commit, LoopWarning, Timestamp}
use attow_nexus.Proto.Messages.{StateDelta}
use attow_nexus.Dag.{append}
use attow_nexus.Auth.{is_allowed}
use attow_nexus.Redaction.{redact_payload}
use attow_nexus.Bus.State.{Mpsc, Bus}
use attow_nexus.Bus.Calls.{broadcast}
use attow_nexus.LoopDetection.{inspect}
use attow_nexus.Ledger.Diff.{natural}
use attow_nexus.Ledger.Rollback.{new_id}
use attow_nexus.Ledger.Store.Calls.{append_commit}
use attow_nexus.Ledger.Store.Heads.{get_head, set_head}
use attow_nexus.Ledger.Store.Artifacts.{put_artifact, append_loop_warning}
use attow_nexus.Service.State.{App, on_store, on_bus, on_metrics, tick}

set_metadata : StateDelta → StateDelta
set_metadata delta = elim delta.metadata [
  | none ↦ record delta { metadata = some [] }
  | some _ ↦ delta
]

module _ (p : Platform) where
  -- A payload of the daemon's own, in JSON.
  unfoldable pub json_payload : List ℕ → Payload
  json_payload bytes = record {
    encoding = 2;
    content = bytes;
    struct_data = none;
    size_bytes = length bytes;
    content_hash = p.blake3_hex bytes;
    compressed = false;
    artifact_ref = "";
  }

  unfoldable pub empty_json_payload : Payload
  unfolding json_payload
  empty_json_payload = json_payload (b'{' ∷ b'}' ∷ [])

  set_payload : StateDelta → StateDelta
  set_payload delta = elim delta.payload [
    | none ↦ record delta { payload = some empty_json_payload }
    | some _ ↦ delta
  ]

  -- the payload with a hash and a size, before redaction
  unfoldable pub complete_payload : Option Payload → Payload
  complete_payload none = empty_json_payload
  complete_payload (some payload) = record payload {
    content_hash =
        if payload.content_hash == "" then p.blake3_hex payload.content else payload.content_hash;
    size_bytes = length payload.content;
  }

  unfoldable pub redact_if : Bool → Payload → Payload × RedactionReport
  redact_if true payload = redact_payload p payload
  redact_if false payload = (payload, record { findings = []; redacted = false })

module _ (p : Platform) {Chan : Type 0} where
  set_delta_id : StateDelta → Exec (App Chan) StateDelta
  set_delta_id delta =
      if delta.delta_id == ""
      then (do n ← tick; pure (record delta { delta_id = new_id p "delta" n }))
      else pure delta

  set_wall_time : StateDelta → Exec (App Chan) StateDelta
  set_wall_time delta = elim delta.wall_time [
    | none ↦ do n ← tick; pure (record delta { wall_time = some (p.now n) })
    | some _ ↦ pure delta
  ]

  pub normalize_delta : StateDelta → Exec (App Chan) StateDelta
  unfolding set_delta_id set_wall_time set_payload set_metadata
  normalize_delta delta = do
    named ← set_delta_id delta
    timed ← set_wall_time named
    pure (set_metadata (set_payload p timed))

  unfoldable pub ensure_channel_permission : String → String → Exec (App Chan) Unit
  ensure_channel_permission agent_id required s =
      if s.config.require_auth
      then (if is_allowed s.config (or_nil (lookup agent_id s.grants)) required
          then pure tt s
          else bail ("permission denied for " <> required) s)
      else pure tt s

  -- a payload that is too large to stand in the commit goes to the artifact store
  unfoldable pub spill : Payload → Exec (App Chan) (Payload × List ArtifactRef)
  spill payload = do
    artifact ← on_store (put_artifact p payload.content "application/octet-stream")
    on_metrics (λ m. record m { artifacts_total = inc64 m.artifacts_total })
    pure (
      record payload {
        artifact_ref = artifact.artifact_id;
        content = [];
        size_bytes = artifact.size_bytes;
        compressed = artifact.compressed;
      },
      artifact ∷ [],
    )

  unfoldable pub prepare_payload :
      Option Payload → Exec (App Chan) (Payload × RedactionReport × List ArtifactRef)
  unfolding complete_payload redact_if spill
  prepare_payload found = do
    config ← gets (λ s. s.config)
    let (payload, report) = redact_if p config.redaction_enabled (complete_payload p found)
    (stored, refs) ←
        if ltb config.max_inline_payload_bytes (length payload.content)
        then spill payload
        else pure (payload, [])
    pure (stored, report, refs)

  unfoldable pub resolve_parents : StateDelta → List String → Exec (App Chan) (List String)
  resolve_parents delta explicit =
      if is_empty explicit
      then (do
        head ← on_store (get_head delta.run_id delta.thread_id delta.agent_id delta.channel)
        pure (elim head [ none ↦ [] | some id ↦ id ∷ [] ]))
      else pure explicit

  unfoldable pub append_dag : Commit → Exec (App Chan) Unit
  append_dag c s = elim (append c.commit_id c.parent_commit_ids s.dag) [
    | ok dag ↦ (ok tt, record s { dag = dag })
    | err e ↦ (err e, s)
  ]

  unfoldable pub persist_commit : Commit → Exec (App Chan) Unit
  unfolding append_dag
  persist_commit c = do
    append_dag c
    on_store (append_commit p c)
    on_store (set_head c.run_id c.thread_id c.agent_id c.channel c.commit_id)
    on_metrics (λ m. record m { commits_total = inc64 m.commits_total })

  module _ (mpsc : Mpsc Chan) where
    -- The body of the warning's delta.
    warning_body : LoopWarning → Value
    warning_body w = Json.json (
        ("warning_id", string w.warning_id)
        ∷ ("run_id", string w.run_id)
        ∷ ("agent_id", string w.agent_id)
        ∷ ("channel", string w.channel)
        ∷ ("severity", natural w.severity)
        ∷ ("fingerprint", string w.fingerprint)
        ∷ ("repetition_count", natural w.repetition_count)
        ∷ ("suggested_stable_commit_id", string w.suggested_stable_commit_id)
        ∷ ("message", string w.message)
        ∷ [])

    warning_delta : LoopWarning → ℕ → Timestamp → StateDelta
    unfolding warning_body
    warning_delta w n at = record {
      delta_id = new_id p "delta" n;
      channel = "system:loop_warnings";
      agent_id = "nexusd";
      run_id = w.run_id;
      thread_id = "";
      logical_clock = 0;
      wall_time = some at;
      payload = some (json_payload p (p.to_vec (warning_body w)));
      durable = false;
      tags = "loop_warning" ∷ [];
      summary = "Loop warning emitted";
      metadata = none;
    }

    unfoldable pub broadcast_loop_warning : LoopWarning → Exec (App Chan) Unit
    unfolding warning_delta
    broadcast_loop_warning w = do
      id ← tick
      at ← tick
      on_bus (broadcast mpsc (warning_delta w id (p.now at)) "")

    unfoldable pub handle_warning : Option LoopWarning → Exec (App Chan) Unit
    handle_warning none = pure tt
    handle_warning (some w) = do
      on_store (append_loop_warning p w)
      on_metrics (λ m. record m { loop_warnings_total = inc64 m.loop_warnings_total })
      broadcast_loop_warning w

    unfoldable pub detect : Commit → Exec (App Chan) (Option LoopWarning)
    detect c s =
        let (warning, detector) = inspect p c s.loop_detector in
        (ok warning, record s { loop_detector = detector })

    unfoldable pub inspect_loop : Commit → Exec (App Chan) Unit
    unfolding handle_warning detect
    inspect_loop c s =
        if s.config.loop_detection_enabled
        then (do warning ← detect c; handle_warning warning) s
        else pure tt s
