-- ===== src/Cli/Commands.antt =====
-- cli/src/main.rs: what each command asks of the daemon. `encode` is `urlencoding::encode`.
use attow_nexus.Prelude.{
  ℕ, zero, suc, ◌%◌, String, ◌<>◌, Bool, true, Option, none, some, List, [], ◌∷◌, ◌==◌, eqb,
  if◌then◌else◌, concat, Result, ok, err, is_ok,
}
use attow_nexus.Json
use attow_nexus.Json.{
  Value, Items, Fields, null, bool, number, string, array, object, nil, cons, end, field, get,
  insert,
}
use attow_nexus.Ledger.Diff.{natural}

pub record PublishArgs : Type 0 where
  pub channel : String
  pub file : String
  pub durable : Bool
  pub agent : String
  pub run : String
  pub summary : String

pub record CheckpointArgs : Type 0 where
  pub agent : String
  pub run : String
  pub channel : String
  pub file : String
  pub summary : String

pub data Command : Type 0 where
  init daemon_start daemon_stop status agents channels doctor : Command
  channels_inspect subscribe log inspect replay : String → Command
  publish : PublishArgs → Command
  checkpoint : CheckpointArgs → Command
  diff : String → String → Command
  fork : String → Option String → Command
  rollback : String → String → Bool → Command
  export : String → String → Command
  bench_local : ℕ → ℕ → Command

-- What a command does: a request whose answer is printed, after a change; a file that is read first; or one
-- of the others.
pub data Plan : Type 0 where
  get_and_print : String → (Value → Value) → Plan
  post_and_print : String → Value → Plan
  read_json_file : String → (Value → Plan) → Plan
  say : String → Plan
  make_data_dir run_daemon diagnose : Plan
  follow_channel : String → Plan
  post_each : List (String × Value) → Plan

abbrev unchanged : Value → Value
unchanged value = value

-- `map.remove(key)`
without : String → Fields → Fields
without key end = end
without key (field j value fs) =
    let rest = without key fs in if j == key then rest else field j value rest

mutual
  pub rename_agent_last_seen : Value → Value
  rename_agent_last_seen (array items) = array (rename_all items)
  rename_agent_last_seen (object map) = elim (get "last_seen_seconds" map) [
    | none ↦ object map
    | some last_seen ↦
        object (insert "last_seen_unix_seconds" last_seen (without "last_seen_seconds" map))
  ]
  rename_agent_last_seen other = other

  pub rename_all : Items → Items
  rename_all nil = nil
  rename_all (cons item items) = cons (rename_agent_last_seen item) (rename_all items)

publish_body : PublishArgs → Value → Value
publish_body args body = Json.json (
    ("channel", string args.channel)
    ∷ ("agent_id", string args.agent)
    ∷ ("run_id", string args.run)
    ∷ ("delta", body)
    ∷ ("durable", bool args.durable)
    ∷ ("summary", string args.summary)
    ∷ [])

checkpoint_body : CheckpointArgs → Value → Value
checkpoint_body args body = Json.json (
    ("agent_id", string args.agent)
    ∷ ("run_id", string args.run)
    ∷ ("channel", string args.channel)
    ∷ ("state", body)
    ∷ ("summary", string args.summary)
    ∷ [])

option_text : Option String → Value
option_text none = null
option_text (some text) = string text

-- `"x".repeat(payload_size)`
repeat_x : ℕ → String
repeat_x zero = ""
repeat_x (suc n) = "x" <> repeat_x n

bench_body : String → ℕ → Value
bench_body payload idx = Json.json (
    ("channel", string "topic:bench")
    ∷ ("agent_id", string "bench")
    ∷ ("run_id", string "bench-run")
    ∷ ("delta", Json.json (("idx", natural idx) ∷ ("payload", string payload) ∷ []))
    ∷ ("durable", bool (eqb (idx % 10) 0))
    ∷ ("summary", string "bench event")
    ∷ [])

-- the requests from `idx` on
bench_requests : String → ℕ → ℕ → List (String × Value)
unfolding bench_body
bench_requests payload idx zero = []
bench_requests payload idx (suc more) =
    ("/api/deltas", bench_body payload idx) ∷ bench_requests payload (suc idx) more

module _ (encode : String → String) where
  pub plan : Command → Plan
  unfolding publish_body checkpoint_body option_text repeat_x bench_requests
  plan init = make_data_dir
  plan daemon_start = run_daemon
  plan daemon_stop = say "Attow Nexus daemon stops with Ctrl-C or the hosting service manager."
  plan status = get_and_print "/api/health" unchanged
  plan agents = get_and_print "/api/agents" rename_agent_last_seen
  plan channels = get_and_print "/api/channels" unchanged
  plan doctor = diagnose
  plan (channels_inspect channel) =
      get_and_print (concat ("/api/channels/" ∷ encode channel ∷ "/snapshot" ∷ [])) unchanged
  plan (subscribe channel) =
      follow_channel (concat ("/api/channels/" ∷ encode channel ∷ "/deltas" ∷ []))
  plan (log run) = get_and_print (concat ("/api/runs/" ∷ encode run ∷ "/commits" ∷ [])) unchanged
  plan (inspect commit_id) = get_and_print ("/api/commits/" <> commit_id) unchanged
  plan (replay commit_id) =
      post_and_print "/api/replay"
        (Json.json (("commit_id", string commit_id) ∷ ("mode", string "state_only") ∷ []))
  plan (publish args) =
      read_json_file args.file (λ body. post_and_print "/api/deltas" (publish_body args body))
  plan (checkpoint args) =
      read_json_file args.file
        (λ body. post_and_print "/api/checkpoint" (checkpoint_body args body))
  plan (diff commit_a commit_b) =
      get_and_print (concat ("/api/diff?from=" ∷ commit_a ∷ "&to=" ∷ commit_b ∷ [])) unchanged
  plan (fork commit_id new_run) = post_and_print "/api/fork" (
      Json.json (("source_commit_id", string commit_id) ∷ ("new_run_id", option_text new_run) ∷ []))
  plan (rollback head to force) = post_and_print "/api/rollback" (
      Json.json (
        ("head_commit_id", string head)
        ∷ ("target_commit_id", string to)
        ∷ ("force", bool force)
        ∷ []))
  plan (export run format) =
      get_and_print (concat ("/api/runs/" ∷ encode run ∷ "/commits?format=" ∷ format ∷ []))
        unchanged
  plan (bench_local events payload_size) =
      post_each (bench_requests (repeat_x payload_size) 0 events)

-- What `doctor` prints, from the answer on the health, whether NEXUS_AUTH_TOKEN is set, and whether the
-- directory that NEXUS_DATA_DIR names is there, when it is set.
pub doctor_json : Result Value → Bool → Option Bool → Value
doctor_json health auth_configured data_dir = Json.json (
    ("daemonReachable", bool (is_ok health))
    ∷ ("health", elim health [ ok value ↦ value | err e ↦ Json.json (("error", string e) ∷ []) ])
    ∷ ("authConfigured", bool auth_configured)
    ∷ ("dataDirWritable", bool (elim data_dir [ none ↦ true | some found ↦ found ]))
    ∷ ("dashboardReachable", bool true)
    ∷ ("protoVersionCompatibility", string "nexus.v1")
    ∷ [])

-- what `init` prints
pub init_json : String → Value
init_json dir =
    Json.json
      (("dataDir", string dir) ∷ ("message", string "Nexus local data directory is ready") ∷ [])
