-- ===== src/Http/Handlers.antt =====
-- The handlers, one for each route.
use attow_nexus.Prelude.{
  ℕ, String, ◌<>◌, false, Option, none, some, List, [], ◌∷◌, map, ◌==◌, if◌then◌else◌, length,
}
use attow_nexus.Platform.{Platform}
use attow_nexus.Json
use attow_nexus.Json.{Value, string}
use attow_nexus.Proto.{ExternalSideEffect}
use attow_nexus.Proto.Messages.{RegisterAgentRequest, PublishDeltaRequest, CheckpointRequest}
use attow_nexus.Metrics.{MetricsSummary, summary}
use attow_nexus.Bus.State.{Mpsc, AgentInfo, ChannelInfo, DeltaInfo}
use attow_nexus.Bus.Calls.{snapshot, recent}
use attow_nexus.Bus.Calls
use attow_nexus.Bus.Presence
use attow_nexus.Ledger.Diff.{natural}
use attow_nexus.Ledger.Rollback.{new_id}
use attow_nexus.Ledger.Store.Calls.{list_commits}
use attow_nexus.Ledger.Store.Heads.{list_runs}
use attow_nexus.Ledger.Store.Artifacts.{list_loop_warnings}
use attow_nexus.Service.State.{App, on_store, tick}
use attow_nexus.Service.Publish
use attow_nexus.Service.Publish.{
  register_agent_inner, publish_delta_inner, checkpoint_inner, diff_inner, replay_inner, fork_inner,
  rollback_inner, get_commit_inner,
}
use attow_nexus.Http.Reply.{reply}
use attow_nexus.Http.Handler.{Handler, answer, given, call, guard, ◌>>=◌, ◌>>◌}
use attow_nexus.Http.Bodies.{
  RegisterAgentBody, PublishDeltaBody, CheckpointBody, DiffQuery, ReplayBody, ForkBody,
  RollbackBody, unwrap_or, metadata_from_map, payload_from_json, metadata_from_value, side_effects,
}
use attow_nexus.Http.Events.{UniversalEventBody, try_from_value}
use attow_nexus.Http.Render.{
  commit_summary, commit_detail, run_json, warning_json, registered_json, snapshot_json,
  published_json, checkpoint_json, diff_json, replay_json, fork_json, rollback_json, health_json,
}

abbrev read : {Chan A : Type 0} → (App Chan → A) → Handler (App Chan) A
read f s = (reply (f s), s)

registration : RegisterAgentBody → RegisterAgentRequest
registration body = record {
  agent_id = body.agent_id;
  run_id = body.run_id;
  thread_id = unwrap_or "" body.thread_id;
  metadata = some (record {
    framework = unwrap_or "custom" body.framework;
    language = unwrap_or "" body.language;
    metadata = some (metadata_from_map body.metadata);
  });
  capabilities = some body.capabilities;
  requested_scopes = [];
}

-- The text of a mode, as its number; 1 is `StateOnly`.
pub replay_mode : Option String → ℕ
replay_mode none = 1
replay_mode (some mode) =
    if mode == "dry_run_tools" then 2 else if mode == "reexecute_tools" then 3 else 1

module _ (p : Platform) {Chan : Type 0} (mpsc : Mpsc Chan) (version : String) where
  unfoldable pub health : Handler (App Chan) Value
  health s = (reply (health_json (Publish.health version s) s.config.grpc_addr.is_loopback), s)

  unfoldable pub agents : Option String → Handler (App Chan) (List AgentInfo)
  agents header = do guard p header; read (λ s. Presence.agents s.bus)

  unfoldable pub register_agent : Option String → RegisterAgentBody → Handler (App Chan) Value
  unfolding registration
  register_agent header body = do
    guard p header
    response ← call (register_agent_inner p (registration body))
    answer (registered_json response)

  unfoldable pub channels : Option String → Handler (App Chan) (List ChannelInfo)
  channels header = do guard p header; read (λ s. Calls.channels s.bus)

  unfoldable pub channel_snapshot : Option String → String → Handler (App Chan) Value
  channel_snapshot header channel = do
    guard p header
    read (λ s. snapshot_json p (snapshot channel s.bus))

  unfoldable pub channel_deltas : Option String → String → Handler (App Chan) (List DeltaInfo)
  channel_deltas header channel = do guard p header; read (λ s. recent (some channel) s.bus)

  -- the request of a delta, with the identifier and the time that it gets
  delta_request : PublishDeltaBody → ℕ → ℕ → PublishDeltaRequest
  delta_request body id at = record {
    delta = some (record {
      delta_id = new_id p "delta" id;
      channel = body.channel;
      agent_id = body.agent_id;
      run_id = body.run_id;
      thread_id = unwrap_or "" body.thread_id;
      logical_clock = unwrap_or 0 body.logical_clock;
      wall_time = some (p.now at);
      payload = some (payload_from_json p body.delta);
      durable = body.durable;
      tags = body.tags;
      summary = unwrap_or "" body.summary;
      metadata = some (metadata_from_map body.metadata);
    });
    parent_commit_ids = body.parent_commit_ids;
    objective = unwrap_or "" body.objective;
  }

  unfoldable pub publish_delta : Option String → PublishDeltaBody → Handler (App Chan) Value
  unfolding delta_request
  publish_delta header body = do
    guard p header
    id ← call tick
    at ← call tick
    response ← call (publish_delta_inner p mpsc version (delta_request body id at))
    answer (published_json response)

  unfoldable pub checkpoint_request : CheckpointBody → List ExternalSideEffect → CheckpointRequest
  checkpoint_request body effects = record {
    agent_id = body.agent_id;
    run_id = body.run_id;
    thread_id = unwrap_or "" body.thread_id;
    channel = body.channel;
    objective = unwrap_or "" body.objective;
    payload = some (payload_from_json p body.state);
    parent_commit_ids = body.parent_commit_ids;
    tags = body.tags;
    summary = unwrap_or "" body.summary;
    metadata = some (metadata_from_map body.metadata);
    tool_calls = [];
    tool_results = [];
    artifact_refs = [];
    external_side_effects = effects;
  }

  unfoldable pub checkpoint : Option String → CheckpointBody → Handler (App Chan) Value
  checkpoint header body = do
    guard p header
    effects ← call (side_effects p (unwrap_or [] body.external_side_effects))
    response ← call (checkpoint_inner p mpsc version (checkpoint_request body effects))
    answer (checkpoint_json response)

  -- the checkpoint that an event asks for; the whole event is its payload
  unfoldable pub event_request : Value → UniversalEventBody → CheckpointRequest
  event_request value body = record {
    agent_id = body.agent_id;
    run_id = body.run_id;
    thread_id = body.thread_id;
    channel = body.channel;
    objective = "";
    payload = some (payload_from_json p value);
    parent_commit_ids = body.parent_commit_ids;
    tags = body.tags;
    summary = body.framework <> " " <> body.event_type;
    metadata = some (metadata_from_value p body.metadata);
    tool_calls = [];
    tool_results = [];
    artifact_refs = [];
    external_side_effects = [];
  }

  unfoldable pub universal_event : Option String → Value → Handler (App Chan) Value
  universal_event header value = do
    guard p header
    body ← given (try_from_value p.is_match value)
    response ← call (checkpoint_inner p mpsc version (event_request value body))
    answer (checkpoint_json response)

  unfoldable pub runs : Option String → Handler (App Chan) (List Value)
  runs header = do guard p header; found ← call (on_store list_runs); answer (map run_json found)

  unfoldable pub run_commits : Option String → String → Handler (App Chan) (List Value)
  run_commits header run_id = do
    guard p header
    commits ← call (on_store (list_commits p (some run_id) none none))
    answer (map commit_summary commits)

  unfoldable pub commit : Option String → String → Handler (App Chan) Value
  commit header commit_id = do
    guard p header
    found ← call (get_commit_inner p commit_id)
    answer (commit_detail p found)

  unfoldable pub diff_query : Option String → DiffQuery → Handler (App Chan) Value
  diff_query header query = do
    guard p header
    diff ← call (
        diff_inner p (record {
          from_commit_id = query.from;
          to_commit_id = query.to;
          from_nearest_common_ancestor = unwrap_or false query.from_nearest_common_ancestor;
        }))
    answer (diff_json p diff)

  unfoldable pub replay : Option String → ReplayBody → Handler (App Chan) Value
  replay header body = do
    guard p header
    result ← call (
        replay_inner p (record {
          commit_id = body.commit_id;
          mode = replay_mode body.mode;
          confirm_reexecute_tools = unwrap_or false body.confirm_reexecute_tools;
        }))
    answer (replay_json p result)

  unfoldable pub fork : Option String → ForkBody → Handler (App Chan) Value
  fork header body = do
    guard p header
    result ← call (
        fork_inner p (record {
          source_commit_id = body.source_commit_id;
          new_run_id = unwrap_or "" body.new_run_id;
          metadata = none;
        }))
    answer (fork_json result)

  unfoldable pub rollback : Option String → RollbackBody → Handler (App Chan) Value
  rollback header body = do
    guard p header
    result ← call (
        rollback_inner p (record {
          head_commit_id = body.head_commit_id;
          target_commit_id = body.target_commit_id;
          force = unwrap_or false body.force;
        }))
    answer (rollback_json result)

  unfoldable pub loop_warnings : Option String → Handler (App Chan) (List Value)
  loop_warnings header = do
    guard p header
    warnings ← call (on_store (list_loop_warnings p))
    answer (map warning_json warnings)

  unfoldable pub metrics_summary : Option String → Handler (App Chan) MetricsSummary
  metrics_summary header = do guard p header; read (λ s. summary s.bus.metrics)

  -- one event of `events_stream`, as each second sends one
  unfoldable pub stream_event : Handler (App Chan) String
  stream_event s = (
    reply (
        p.to_json_text (
          Json.json (
            ("type", string "summary")
            ∷ ("agents", natural (length s.bus.presence))
            ∷ ("channels", natural (length s.bus.channels))
            ∷ ("commits", natural s.bus.metrics.commits_total)
            ∷ ("loopWarnings", natural s.bus.metrics.loop_warnings_total)
            ∷ []))),
    s,
  )
