-- ===== src/Proto/Messages.antt =====
-- proto/nexus/v1/ipc.proto, ledger.proto and service.proto: the requests, the responses and what the
-- bus carries.
use attow_nexus.Prelude.{ℕ, String, Bool, Option, List}
use attow_nexus.Proto.{
  Timestamp, Metadata, Payload, RedactionReport, PermissionScope, ToolCall, ToolResult, ArtifactRef,
  ExternalSideEffect, ErrorInfo,
}

pub record AgentMetadata : Type 0 where
  pub framework : String
  pub language : String
  pub metadata : Option Metadata

pub record RegisterAgentRequest : Type 0 where
  pub agent_id : String
  pub run_id : String
  pub thread_id : String
  pub metadata : Option AgentMetadata
  pub capabilities : Option (List String)
  pub requested_scopes : List PermissionScope

pub record RegisterAgentResponse : Type 0 where
  pub accepted : Bool
  pub agent_id : String
  pub granted_scopes : List PermissionScope
  pub protocol_version : String

pub record AgentPresence : Type 0 where
  pub agent_id : String
  pub run_id : String
  pub thread_id : String
  pub status : String
  pub last_seen : Option Timestamp
  pub metadata : Option AgentMetadata
  pub capabilities : Option (List String)
  pub active_channels : List String

pub record StateDelta : Type 0 where
  pub delta_id : String
  pub channel : String
  pub agent_id : String
  pub run_id : String
  pub thread_id : String
  pub logical_clock : ℕ
  pub wall_time : Option Timestamp
  pub payload : Option Payload
  pub durable : Bool
  pub tags : List String
  pub summary : String
  pub metadata : Option Metadata

pub record PublishDeltaRequest : Type 0 where
  pub delta : Option StateDelta
  pub parent_commit_ids : List String
  pub objective : String

pub record PublishDeltaResponse : Type 0 where
  pub delta_id : String
  pub commit_id : String
  pub accepted : Bool
  pub persisted : Bool
  pub warning : String
  pub redaction_report : Option RedactionReport

pub record SubscriptionFilter : Type 0 where
  pub channel_patterns : List String
  pub durable_only : Bool
  pub tags : List String

pub record BroadcastDelta : Type 0 where
  pub delta : Option StateDelta
  pub commit_id : String
  pub redacted : Bool

pub record ChannelSnapshotResponse : Type 0 where
  pub channel : String
  pub latest_payload : Option Payload
  pub durable_count : ℕ
  pub ephemeral_count : ℕ

pub record CheckpointRequest : Type 0 where
  pub agent_id : String
  pub run_id : String
  pub thread_id : String
  pub channel : String
  pub objective : String
  pub payload : Option Payload
  pub parent_commit_ids : List String
  pub tags : List String
  pub summary : String
  pub metadata : Option Metadata
  pub tool_calls : List ToolCall
  pub tool_results : List ToolResult
  pub artifact_refs : List ArtifactRef
  pub external_side_effects : List ExternalSideEffect

pub record CheckpointResponse : Type 0 where
  pub commit_id : String
  pub delta_id : String
  pub accepted : Bool
  pub persisted : Bool
  pub warning : String
  pub redaction_report : Option RedactionReport

pub record DiffCommitsRequest : Type 0 where
  pub from_commit_id : String
  pub to_commit_id : String
  pub from_nearest_common_ancestor : Bool

pub record ReplayRequest : Type 0 where
  pub commit_id : String
  pub mode : ℕ
  pub confirm_reexecute_tools : Bool

pub record ReplayResult : Type 0 where
  pub commit_id : String
  pub reconstructed_state : Option Payload
  pub messages : List Payload
  pub tool_outputs : List ToolResult
  pub artifacts : List ArtifactRef
  pub side_effect_warnings : List String
  pub provenance_commit_ids : List String
  pub missing_artifact_warnings : List String

pub record ForkRequest : Type 0 where
  pub source_commit_id : String
  pub new_run_id : String
  pub metadata : Option Metadata

pub record ForkResult : Type 0 where
  pub source_commit_id : String
  pub run_id : String
  pub head_commit_id : String

pub record RollbackRequest : Type 0 where
  pub head_commit_id : String
  pub target_commit_id : String
  pub force : Bool

pub record RollbackResponse : Type 0 where
  pub moved : Bool
  pub previous_head_commit_id : String
  pub new_head_commit_id : String
  pub warnings : List String

pub record HealthResponse : Type 0 where
  pub status : String
  pub daemon_version : String
  pub protocol_version : String
  pub auth_required : Bool
  pub bind_mode : String

pub record SubscribeRequest : Type 0 where
  pub subscriber_id : String
  pub filter : Option SubscriptionFilter
  pub queue_capacity : ℕ

pub record ExportRunRequest : Type 0 where
  pub run_id : String
  pub format : String

pub record ExportRunResponse : Type 0 where
  pub run_id : String
  pub export_payload : Option Payload

-- The operations read the three filters.
pub record ListCommitsRequest : Type 0 where
  pub run_id : String
  pub thread_id : String
  pub channel : String

pub record Heartbeat : Type 0 where
  pub agent_id : String
  pub run_id : String
  pub at : Option Timestamp

pub data ClientEvent : Type 0 where
  heartbeat : Heartbeat → ClientEvent
  publish_delta : PublishDeltaRequest → ClientEvent
  subscribe : SubscribeRequest → ClientEvent
  unsubscribe : String → ClientEvent
  checkpoint : PublishDeltaRequest → ClientEvent
  record_tool_started : ToolCall → ClientEvent
  record_tool_finished : ToolResult → ClientEvent
  record_side_effect : ExternalSideEffect → ClientEvent
  shutdown : String → ClientEvent

-- The events that the daemon sends: an acknowledgement, a commit, an error.
pub data ServerEvent : Type 0 where
  ack : String → String → ServerEvent
  checkpoint_committed : String → String → ServerEvent
  error : ErrorInfo → ServerEvent
