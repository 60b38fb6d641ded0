-- ===== src/Http/Render.antt =====
-- The JSON answers: commits, runs, warnings, differences and results. `json!` on an option is null or the
-- value.
use attow_nexus.Prelude.{
  String, Bool, true, false, Option, none, some, List, [], ◌∷◌, map, ℤ, pos, negsuc, suc, length,
}
use attow_nexus.Platform.{Platform}
use attow_nexus.Json
use attow_nexus.Json.{
  Value, Items, Fields, null, bool, number, pos_int, neg_int, string, array, object, nil, cons,
  insert,
}
use attow_nexus.Proto.{
  Timestamp, Commit, LoopWarning, RunSummary, DiffEntry, CommitDiff, RedactionReport, ToolCall,
  ToolResult, ArtifactRef, ExternalSideEffect,
}
use attow_nexus.Proto.Messages.{
  RegisterAgentResponse, PublishDeltaResponse, CheckpointResponse, ChannelSnapshotResponse,
  ReplayResult, ForkResult, RollbackResponse, HealthResponse,
}
use attow_nexus.Ledger.Diff.{natural, payload_to_json}

abbrev integer : ℤ → Value
integer (pos n) = number (pos_int n)
integer (negsuc n) = number (neg_int (suc n))

list : List Value → Value
list values = array (items values)
  where
    items : List Value → Items
    items [] = nil
    items (v ∷ vs) = cons v (items vs)

texts : List String → Value
unfolding list
texts values = list (map string values)

seconds : Option Timestamp → Value
seconds none = null
seconds (some t) = integer t.seconds

redacted : Option RedactionReport → Value
redacted none = bool false
redacted (some report) = bool report.redacted

unfoldable pub commit_summary : Commit → Value
unfolding texts seconds
commit_summary c = Json.json (
    ("commitId", string c.commit_id)
    ∷ ("deltaId", string c.delta_id)
    ∷ ("runId", string c.run_id)
    ∷ ("threadId", string c.thread_id)
    ∷ ("agentId", string c.agent_id)
    ∷ ("channel", string c.channel)
    ∷ ("logicalClock", natural c.logical_clock)
    ∷ ("wallTime", seconds c.wall_time)
    ∷ ("summary", string c.summary)
    ∷ ("tags", texts c.tags)
    ∷ ("parentCommitIds", texts c.parent_commit_ids)
    ∷ ("sideEffectCount", natural (length c.external_side_effects))
    ∷ [])

tool_call : ToolCall → Value
tool_call tool =
    Json.json (("toolCallId", string tool.tool_call_id) ∷ ("name", string tool.name) ∷ [])

tool_result : ToolResult → Value
tool_result result = Json.json (
    ("toolCallId", string result.tool_call_id)
    ∷ ("hasError", bool (elim result.error [ none ↦ false | some e ↦ true ]))
    ∷ [])

artifact : ArtifactRef → Value
artifact a = Json.json (
    ("artifactId", string a.artifact_id)
    ∷ ("contentHash", string a.content_hash)
    ∷ ("sizeBytes", natural a.size_bytes)
    ∷ ("mediaType", string a.media_type)
    ∷ ("compressed", bool a.compressed)
    ∷ [])

side_effect : ExternalSideEffect → Value
side_effect effect = Json.json (
    ("sideEffectId", string effect.side_effect_id)
    ∷ ("kind", string effect.kind)
    ∷ ("description", string effect.description)
    ∷ ("target", string effect.target)
    ∷ ("reversible", bool effect.reversible)
    ∷ ("compensatingActionAvailable", bool effect.compensating_action_available)
    ∷ [])

-- the entries that `commit_detail` inserts after those of the summary, first to last
detail : Platform → Commit → Fields → Fields
unfolding tool_call tool_result artifact side_effect list
detail p c fs = insert "externalSideEffects" (list (map side_effect c.external_side_effects)) (
    insert "artifacts" (list (map artifact c.artifact_refs)) (
      insert "toolResults" (list (map tool_result c.tool_results)) (
        insert "toolCalls" (list (map tool_call c.tool_calls)) (
          insert "stateDelta" (payload_to_json p c.state_delta)
            (insert "objective" (string c.objective) fs)))))

-- `if let Some(object) = value.as_object_mut()`
add_detail : Platform → Commit → Value → Value
unfolding detail
add_detail p c (object fs) = object (detail p c fs)
add_detail p c value = value

pub commit_detail : Platform → Commit → Value
unfolding add_detail
commit_detail p c = add_detail p c (commit_summary c)

pub run_json : RunSummary → Value
unfolding seconds
run_json run = Json.json (
    ("runId", string run.run_id)
    ∷ ("commitCount", natural run.commit_count)
    ∷ ("lastCommitAt", seconds run.last_commit_at)
    ∷ [])

pub warning_json : LoopWarning → Value
warning_json w = Json.json (
    ("warningId", string w.warning_id)
    ∷ ("runId", string w.run_id)
    ∷ ("agentId", string w.agent_id)
    ∷ ("channel", string w.channel)
    ∷ ("severity", natural w.severity)
    ∷ ("fingerprint", string w.fingerprint)
    ∷ ("repetitionCount", natural w.repetition_count)
    ∷ ("suggestedStableCommitId", string w.suggested_stable_commit_id)
    ∷ ("message", string w.message)
    ∷ [])

pub registered_json : RegisterAgentResponse → Value
unfolding texts
registered_json r = Json.json (
    ("accepted", bool r.accepted)
    ∷ ("agentId", string r.agent_id)
    ∷ ("protocolVersion", string r.protocol_version)
    ∷ ("grantedScopes", texts r.granted_scopes)
    ∷ [])

pub snapshot_json : Platform → ChannelSnapshotResponse → Value
snapshot_json p snapshot = Json.json (
    ("channel", string snapshot.channel)
    ∷ ("latestPayload", payload_to_json p snapshot.latest_payload)
    ∷ ("durableCount", natural snapshot.durable_count)
    ∷ ("ephemeralCount", natural snapshot.ephemeral_count)
    ∷ [])

pub published_json : PublishDeltaResponse → Value
unfolding redacted
published_json r = Json.json (
    ("deltaId", string r.delta_id)
    ∷ ("commitId", string r.commit_id)
    ∷ ("accepted", bool r.accepted)
    ∷ ("persisted", bool r.persisted)
    ∷ ("warning", string r.warning)
    ∷ ("redacted", redacted r.redaction_report)
    ∷ [])

pub checkpoint_json : CheckpointResponse → Value
unfolding redacted
checkpoint_json r = Json.json (
    ("commitId", string r.commit_id)
    ∷ ("deltaId", string r.delta_id)
    ∷ ("accepted", bool r.accepted)
    ∷ ("persisted", bool r.persisted)
    ∷ ("warning", string r.warning)
    ∷ ("redacted", redacted r.redaction_report)
    ∷ [])

-- `serde_json::from_str(text).unwrap_or(Value::String(text))`
parse_or_text : Platform → String → Value
parse_or_text p text = elim (p.from_str text) [ none ↦ string text | some value ↦ value ]

entry_json : Platform → DiffEntry → Value
unfolding parse_or_text
entry_json p entry = Json.json (
    ("path", string entry.path)
    ∷ ("changeType", string entry.change_type)
    ∷ ("before", parse_or_text p entry.before_json)
    ∷ ("after", parse_or_text p entry.after_json)
    ∷ [])

pub diff_json : Platform → CommitDiff → Value
unfolding list entry_json
diff_json p diff = Json.json (
    ("fromCommitId", string diff.from_commit_id)
    ∷ ("toCommitId", string diff.to_commit_id)
    ∷ ("humanSummary", string diff.human_summary)
    ∷ ("entries", list (map (entry_json p) diff.entries))
    ∷ [])

pub replay_json : Platform → ReplayResult → Value
unfolding texts
replay_json p result = Json.json (
    ("commitId", string result.commit_id)
    ∷ ("reconstructedState", payload_to_json p result.reconstructed_state)
    ∷ ("sideEffectWarnings", texts result.side_effect_warnings)
    ∷ ("provenanceCommitIds", texts result.provenance_commit_ids)
    ∷ ("missingArtifactWarnings", texts result.missing_artifact_warnings)
    ∷ [])

pub fork_json : ForkResult → Value
fork_json result = Json.json (
    ("sourceCommitId", string result.source_commit_id)
    ∷ ("runId", string result.run_id)
    ∷ ("headCommitId", string result.head_commit_id)
    ∷ [])

pub rollback_json : RollbackResponse → Value
unfolding texts
rollback_json result = Json.json (
    ("moved", bool result.moved)
    ∷ ("previousHeadCommitId", string result.previous_head_commit_id)
    ∷ ("newHeadCommitId", string result.new_head_commit_id)
    ∷ ("warnings", texts result.warnings)
    ∷ [])

pub health_json : HealthResponse → Bool → Value
health_json health local_only = Json.json (
    ("status", string health.status)
    ∷ ("daemonVersion", string health.daemon_version)
    ∷ ("protocolVersion", string health.protocol_version)
    ∷ ("authRequired", bool health.auth_required)
    ∷ ("bindMode", string health.bind_mode)
    ∷ ("localOnly", bool local_only)
    ∷ [])
