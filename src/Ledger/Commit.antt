-- ===== src/Ledger/Commit.antt =====
-- daemon/src/ledger/commit.rs and util/hash.rs: a commit is made from a delta, and named by its hash.
use attow_nexus.Prelude.{String, ◌<>◌, none, some, List, [], take_text}
use attow_nexus.Platform.{Platform}
use attow_nexus.Proto.{
  Payload, RedactionReport, ToolCall, ToolResult, ArtifactRef, ExternalSideEffect, Commit,
}
use attow_nexus.Proto.Messages.{StateDelta}

pub record CommitExtras : Type 0 where
  pub objective : String
  pub tool_calls : List ToolCall
  pub tool_results : List ToolResult
  pub artifact_refs : List ArtifactRef
  pub external_side_effects : List ExternalSideEffect
  pub sdk_name : String
  pub sdk_version : String

-- The commit before it is hashed: no id and no content hash.
unfoldable pub unnamed :
    StateDelta → List String → Payload → RedactionReport → CommitExtras → Commit
unnamed delta parents payload report extras = record {
  commit_id = "";
  delta_id = delta.delta_id;
  run_id = delta.run_id;
  thread_id = delta.thread_id;
  agent_id = delta.agent_id;
  channel = delta.channel;
  parent_commit_ids = parents;
  logical_clock = delta.logical_clock;
  wall_time = delta.wall_time;
  objective = extras.objective;
  state_delta = some payload;
  messages_delta = none;
  tool_calls = extras.tool_calls;
  tool_results = extras.tool_results;
  artifact_refs = extras.artifact_refs;
  external_side_effects = extras.external_side_effects;
  summary = delta.summary;
  tags = delta.tags;
  metadata = delta.metadata;
  schema_version = 1;
  sdk_name = extras.sdk_name;
  sdk_version = extras.sdk_version;
  content_hash = "";
  previous_hashes = [];
  redaction_report = some report;
}

module _ (p : Platform) where
  unfoldable pub from_delta :
      StateDelta → List String → Payload → RedactionReport → CommitExtras → Commit
  unfolding unnamed
  from_delta delta parents payload report extras =
      let blank = unnamed delta parents payload report extras in
      let hashed = record blank { content_hash = p.blake3_hex (p.encode_commit blank) } in
      record hashed { commit_id = "c_" <> take_text 32 (p.blake3_hex (p.encode_commit hashed)) }
