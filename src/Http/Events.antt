-- ===== src/Http/Events.antt =====
-- `UniversalEventBody::try_from_value`: the validation of a universal agent event.
pub mod Spec
pub mod Laws
use attow_nexus.Prelude.{
  ℕ, String, ◌<>◌, Bool, true, false, ◌&&◌, ◌||◌, Option, none, some, List, [], ◌∷◌, ◌==◌, ltb, ◌^◌,
  if◌then◌else◌, contains,
}
use attow_nexus.Platform.{Platform}
use attow_nexus.Json.{
  Value, Items, Fields, Number, pos_int, neg_int, float, null, bool, number, string, array, object,
  nil, cons, end, field, get,
}
use attow_nexus.Http.Reply.{ApiResult, reply, refusal, bad_request, ◌>>=◌, ◌>>◌}

pub record UniversalEventBody : Type 0 where
  pub run_id : String
  pub thread_id : String
  pub agent_id : String
  pub framework : String
  pub event_type : String
  pub channel : String
  pub tags : List String
  pub parent_commit_ids : List String
  pub metadata : Value

-- CHANNEL_RE and ID_RE
abbrev pub channel_re : String
channel_re = "^[a-z][a-z0-9_]*:[A-Za-z0-9_.:\\-*]+$"

abbrev pub id_re : String
id_re = "^[A-Za-z0-9_.:\\-]+$"

abbrev pub frameworks : List String
frameworks =
    "autogen" ∷ "crewai" ∷ "custom" ∷ "generic" ∷ "langgraph" ∷ "microsoft-agent-framework"
    ∷ "vercel-ai" ∷ []

abbrev pub event_types : List String
event_types =
    "run_start" ∷ "run_end" ∷ "step_start" ∷ "step_end" ∷ "node_start" ∷ "node_end" ∷ "task_start"
    ∷ "task_end" ∷ "tool_start" ∷ "tool_end" ∷ "stream_delta" ∷ "message_delta" ∷ "state_checkpoint"
    ∷ "error" ∷ "custom" ∷ []

-- what `required_string` makes of the value under the key
unfoldable text_or : String → Option Value → ApiResult String
text_or display (some (string value)) =
    if value == "" then refusal bad_request (display <> " is required") else reply value
text_or display _ = refusal bad_request (display <> " is required")

unfoldable pub required_string : Fields → String → String → ApiResult String
unfolding text_or
required_string obj key display = text_or display (get key obj)

-- `matches!` and the pattern of a channel
unfoldable require : Bool → String → ApiResult Unit
require true message = reply tt
require false message = refusal bad_request message

unfoldable pub required_id : (String → String → Bool) → Fields → String → ApiResult String
unfolding require
required_id is_match obj key = do
  value ← required_string obj key ("UniversalAgentEvent." <> key)
  require (is_match id_re value) ("UniversalAgentEvent." <> key <> " contains invalid characters")
  reply value

-- `item.as_str()` of all items, when each has one
unfoldable pub strings : Items → Option (List String)
strings nil = some []
strings (cons (string text) items) = elim (strings items) [
  | none ↦ none
  | some rest ↦ some (text ∷ rest)
]
strings (cons _ items) = none

unfoldable pub optional_string_array : Option Value → String → ApiResult (List String)
optional_string_array none key = reply []
optional_string_array (some (array items)) key = elim (strings items) [
  | none ↦ refusal bad_request (key <> " must be an array of commit ID strings")
  | some texts ↦ reply texts
]
optional_string_array (some _) key =
    refusal bad_request (key <> " must be an array of commit ID strings")

-- `number.as_i64().is_some_and(|value| value > 0)`; a float has no `as_i64`
unfoldable pub is_timestamp : Option Value → Bool
is_timestamp (some (number (pos_int n))) = ltb 0 n && ltb n (2 ^ 63)
is_timestamp _ = false

unfoldable pub metadata_of : Option Value → ApiResult Value
metadata_of none = reply (object end)
metadata_of (some (object fs)) = reply (object fs)
metadata_of (some _) = refusal bad_request "metadata must be an object"

unfoldable from_object : (String → String → Bool) → Fields → ApiResult UniversalEventBody
unfolding require
from_object is_match obj = do
  schema_version ← required_string obj "schema_version" "UniversalAgentEvent.schema_version"
  require (schema_version == "nexus.universal.v1")
      "UniversalAgentEvent.schema_version must be nexus.universal.v1"
  run_id ← required_id is_match obj "run_id"
  thread_id ← required_id is_match obj "thread_id"
  agent_id ← required_id is_match obj "agent_id"
  required_id is_match obj "event_id"
  framework ← required_string obj "framework" "UniversalAgentEvent.framework"
  require (contains framework frameworks)
      "UniversalAgentEvent.framework must be one of autogen, crewai, custom, generic, langgraph, microsoft-agent-framework, vercel-ai"
  event_type ← required_string obj "event_type" "UniversalAgentEvent.event_type"
  require (contains event_type event_types)
      "UniversalAgentEvent.event_type is not supported by nexus.universal.v1"
  channel ← required_string obj "channel" "UniversalAgentEvent.channel"
  require (is_match channel_re channel) "channel must match allowed Nexus channel pattern"
  require (is_timestamp (get "timestamp_ms" obj))
      "timestamp_ms must be an integer Unix timestamp in milliseconds"
  tags ← optional_string_array (get "tags" obj) "tags"
  parent_commit_ids ← optional_string_array (get "parent_commit_ids" obj) "parent_commit_ids"
  metadata ← metadata_of (get "metadata" obj)
  reply (record {
    run_id = run_id;
    thread_id = thread_id;
    agent_id = agent_id;
    framework = framework;
    event_type = event_type;
    channel = channel;
    tags = tags;
    parent_commit_ids = parent_commit_ids;
    metadata = metadata;
  })

unfoldable pub try_from_value : (String → String → Bool) → Value → ApiResult UniversalEventBody
unfolding from_object
try_from_value is_match (object fs) = from_object is_match fs
try_from_value is_match _ = refusal bad_request "UniversalAgentEvent must be a JSON object"

-- `validate_universal_event`
pub validate_universal_event : Platform → Value → ApiResult Unit
validate_universal_event p value = try_from_value p.is_match value >>= λ _. reply tt
