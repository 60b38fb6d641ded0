-- ===== src/Tests/Data.antt =====
-- A platform, commits and stores for the examples.
use attow_nexus.Prelude.{
  ℕ, String, Bool, true, false, none, some, List, [], ◌∷◌, ◌==◌, eqb, if◌then◌else◌, ok, pos,
}
use attow_nexus.Platform.{Platform}
use attow_nexus.Json.{null}
use attow_nexus.Config.{Config, SocketAddr}
use attow_nexus.Proto.{Commit}
use attow_nexus.Proto.Messages.{StateDelta, BroadcastDelta}
use attow_nexus.Ledger.Store.Rows.{Store, CommitRow}
use attow_nexus.Bus.State.{Mpsc, sent, new}
use attow_nexus.Metrics
use attow_nexus.LoopDetection
use attow_nexus.Dag.{DagIndex}
use attow_nexus.Service.State.{App}

abbrev pub commit_of : String → List String → Commit
commit_of id parents = record {
  commit_id = id;
  delta_id = "delta";
  run_id = "run";
  thread_id = "thread";
  agent_id = "agent";
  channel = "plans";
  parent_commit_ids = parents;
  logical_clock = 1;
  wall_time = none;
  objective = "";
  state_delta = none;
  messages_delta = none;
  tool_calls = [];
  tool_results = [];
  artifact_refs = [];
  external_side_effects = [];
  summary = "";
  tags = [];
  metadata = none;
  schema_version = 1;
  sdk_name = "nexusd";
  sdk_version = "0.1.0";
  content_hash = "";
  previous_hashes = [];
  redaction_report = none;
}

abbrev pub commit_a : Commit
commit_a = commit_of "a" []

abbrev pub commit_b : Commit
commit_b = commit_of "b" ("a" ∷ [])

abbrev pub platform : Platform
platform = record {
  blake3_hex = λ _. "hash";
  encode_commit = λ c. if c.commit_id == "b" then 2 ∷ [] else 1 ∷ [];
  decode_commit =
      λ bytes. elim bytes [ [] ↦ none | b ∷ _ ↦ if eqb b 2 then some commit_b else some commit_a ];
  encode_warning = λ _. [];
  decode_warning = λ _. none;
  to_vec = λ _. [];
  to_json_text = λ _. "{}";
  tags_text = λ _. "[]";
  from_slice = λ _. some null;
  from_str = λ _. none;
  is_match = λ regex s. true;
  as_bytes = λ s. if s == "token" then 1 ∷ [] else [];
  from_utf8_lossy = λ _. "";
  from_utf8 = λ _. none;
  replace_all = λ regex s with_. s;
  zstd_encode = λ bytes. ok bytes;
  zstd_decode = λ bytes. ok bytes;
  uuid = λ _. "0";
  now = λ _. record { seconds = pos 0; nanos = pos 0 };
  millis = λ n. n;
  debug_list = λ _. "[]";
}

abbrev pub row_of : ℕ → CommitRow
row_of n = record {
  delta_id = "delta";
  run_id = "run";
  thread_id = "thread";
  agent_id = "agent";
  channel = "plans";
  logical_clock = pos 1;
  wall_time_seconds = pos 0;
  tags_json = "[]";
  content_hash = "";
  proto = n ∷ [];
}

-- a store that holds the two commits
abbrev pub store : Store
store = record {
  commits = ("a", row_of 1) ∷ ("b", row_of 2) ∷ [];
  commit_parents = ("b", "a") ∷ [];
  heads = [];
  runs = [];
  channels = [];
  deltas = [];
  artifacts = [];
  files = [];
  tool_calls = [];
  tool_results = [];
  side_effects = [];
  loop_warnings = [];
  audit_events = [];
  rollback_events = [];
  artifact_dir = "artifacts";
  compression_threshold_bytes = 2;
  ticks = 0;
  faults = [];
}

abbrev pub dag : DagIndex
dag = record { parents = ("a", []) ∷ ("b", "a" ∷ []) ∷ []; children = ("a", "b" ∷ []) ∷ [] }

abbrev pub address : SocketAddr
address = record { text = "127.0.0.1:50051"; is_loopback = true }

abbrev pub config : Config
config = record {
  data_dir = "/home/user/.nexus";
  bind_mode = "tcp";
  grpc_addr = address;
  uds_path = "/tmp/nexus.sock";
  windows_pipe_name = "";
  http_addr = address;
  metrics_addr = address;
  auth_token = some "token";
  require_auth = true;
  allow_remote = false;
  store = "sqlite";
  sqlite_path = "/home/user/.nexus/nexus.sqlite";
  rocksdb_path = "/home/user/.nexus/rocksdb";
  artifact_dir = "/home/user/.nexus/artifacts";
  compression_threshold_bytes = 4096;
  max_inline_payload_bytes = 64;
  persist_ephemeral = false;
  redaction_enabled = true;
  encryption_at_rest = false;
  loop_detection_enabled = true;
  mcp_enabled = false;
  otel_enabled = false;
  cluster_enabled = false;
  cluster_role = "primary";
  cluster_primary_addr = none;
  cluster_shared_token = none;
}

abbrev pub mpsc : Mpsc (List BroadcastDelta)
mpsc = record {
  channel = λ _. [];
  try_send = λ message chan. (sent, message ∷ chan);
  send = λ message chan. message ∷ chan;
}

abbrev pub app : App (List BroadcastDelta)
app = record {
  config = config;
  bus = new Metrics.default;
  store = store;
  dag = dag;
  loop_detector = LoopDetection.default;
  grants = ("agent", "channel:write:plans" ∷ []) ∷ [];
  ticks = 0;
}

abbrev pub delta_of : Bool → StateDelta
delta_of durable = record {
  delta_id = "delta";
  channel = "plans";
  agent_id = "agent";
  run_id = "run";
  thread_id = "thread";
  logical_clock = 1;
  wall_time = none;
  payload = none;
  durable = durable;
  tags = [];
  summary = "";
  metadata = none;
}
