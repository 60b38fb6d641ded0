-- ===== src/Proto.antt =====
-- proto/nexus/v1/common.proto and the messages of ledger.proto: what the daemon stores and returns.
-- `optional` and message fields are options, `repeated` fields are lists, enums are numbers.
pub mod Messages
use attow_nexus.Prelude.{ℕ, String, Bool, true, false, Option, List, ℤ, eqb, if◌then◌else◌}

pub record Timestamp : Type 0 where
  pub seconds : ℤ
  pub nanos : ℤ

abbrev pub Metadata : Type 0
Metadata = List (String × String)

-- `Error`
pub record ErrorInfo : Type 0 where
  pub code : String
  pub message : String
  pub retryable : Bool
  pub metadata : Option Metadata

-- `google.protobuf.Struct` and `Value`
mutual
  pub data ProstValue : Type 0 where
    absent null_value : ProstValue
    number_value : ℕ → ProstValue
    string_value : String → ProstValue
    bool_value : Bool → ProstValue
    struct_value : ProstFields → ProstValue
    list_value : ProstItems → ProstValue

  pub data ProstFields : Type 0 where
    no_field : ProstFields
    prost_field : String → ProstValue → ProstFields → ProstFields

  pub data ProstItems : Type 0 where
    no_item : ProstItems
    item : ProstValue → ProstItems → ProstItems

pub data PayloadEncoding : Type 0 where
  unspecified protobuf_struct json msgpack cbor text bytes : PayloadEncoding

-- `PayloadEncoding::try_from(n).unwrap_or(Unspecified)`, where `n` is the bit pattern of the `i32`
unfoldable pub encoding_of : ℕ → PayloadEncoding
encoding_of n =
    if eqb n 1
    then protobuf_struct
    else if eqb n 2
    then json
    else if eqb n 3
    then msgpack
    else if eqb n 4
    then cbor
    else if eqb n 5
    then text
    else if eqb n 6
    then bytes
    else unspecified

-- `content` is the field `data`.
pub record Payload : Type 0 where
  pub encoding : ℕ
  pub content : List ℕ
  pub struct_data : Option ProstFields
  pub size_bytes : ℕ
  pub content_hash : String
  pub compressed : Bool
  pub artifact_ref : String

pub record RedactionFinding : Type 0 where
  pub field_path : String
  pub redaction_type : String
  pub replacement_marker : String

pub record RedactionReport : Type 0 where
  pub findings : List RedactionFinding
  pub redacted : Bool

-- its one field, `value`
abbrev pub PermissionScope : Type 0
PermissionScope = String

pub record ToolCall : Type 0 where
  pub tool_call_id : String
  pub name : String
  pub input : Option Payload
  pub started_at : Option Timestamp
  pub metadata : Option Metadata

pub record ToolResult : Type 0 where
  pub tool_call_id : String
  pub output : Option Payload
  pub error : Option ErrorInfo
  pub finished_at : Option Timestamp
  pub metadata : Option Metadata

pub record ArtifactRef : Type 0 where
  pub artifact_id : String
  pub content_hash : String
  pub size_bytes : ℕ
  pub media_type : String
  pub compressed : Bool
  pub metadata : Option Metadata

pub record ExternalSideEffect : Type 0 where
  pub side_effect_id : String
  pub kind : String
  pub description : String
  pub target : String
  pub payload_summary : String
  pub occurred_at : Option Timestamp
  pub reversible : Bool
  pub compensating_action_available : Bool
  pub metadata : Option Metadata

pub record Commit : Type 0 where
  pub commit_id : String
  pub delta_id : String
  pub run_id : String
  pub thread_id : String
  pub agent_id : String
  pub channel : String
  pub parent_commit_ids : List String
  pub logical_clock : ℕ
  pub wall_time : Option Timestamp
  pub objective : String
  pub state_delta : Option Payload
  pub messages_delta : Option Payload
  pub tool_calls : List ToolCall
  pub tool_results : List ToolResult
  pub artifact_refs : List ArtifactRef
  pub external_side_effects : List ExternalSideEffect
  pub summary : String
  pub tags : List String
  pub metadata : Option Metadata
  pub schema_version : ℕ
  pub sdk_name : String
  pub sdk_version : String
  pub content_hash : String
  pub previous_hashes : List String
  pub redaction_report : Option RedactionReport

pub record LoopWarning : Type 0 where
  pub warning_id : String
  pub run_id : String
  pub agent_id : String
  pub channel : String
  pub severity : ℕ
  pub fingerprint : String
  pub repetition_count : ℕ
  pub first_seen : Option Timestamp
  pub last_seen : Option Timestamp
  pub suggested_stable_commit_id : String
  pub message : String

pub record RunSummary : Type 0 where
  pub run_id : String
  pub commit_count : ℕ
  pub last_commit_at : Option Timestamp

pub record DiffEntry : Type 0 where
  pub path : String
  pub change_type : String
  pub before_json : String
  pub after_json : String

pub record CommitDiff : Type 0 where
  pub from_commit_id : String
  pub to_commit_id : String
  pub entries : List DiffEntry
  pub human_summary : String
