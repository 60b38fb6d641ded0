-- ===== src/Service/Publish.antt =====
-- The operations of `AppState`: registration, publishing, checkpoints, reads, replay, fork, rollback.
pub mod Denied
pub mod Parts
pub mod Stored
pub mod Answered
use attow_nexus.Prelude.Exec.{Exec, pure, bail, lift, gets, modify, ◌>>=◌, ◌>>◌}
use attow_nexus.Prelude.{
  ℕ, suc, String, ◌<>◌, Bool, true, false, ◌&&◌, not, Option, none, some, List, [], ◌∷◌, ◌++◌, map,
  ◌==◌, if◌then◌else◌, length, Assoc, insert, Result, ok, err, ok_or,
}
use attow_nexus.Platform.{Platform}
use attow_nexus.Json
use attow_nexus.Json.{Value, Items, string, array, nil, cons}
use attow_nexus.Proto.{Payload, RedactionReport, Commit, CommitDiff, RunSummary}
use attow_nexus.Proto.Messages.{
  StateDelta, RegisterAgentRequest, RegisterAgentResponse, PublishDeltaRequest,
  PublishDeltaResponse, CheckpointRequest, CheckpointResponse, DiffCommitsRequest, ReplayRequest,
  ReplayResult, ForkRequest, ForkResult, RollbackRequest, RollbackResponse, HealthResponse,
}
use attow_nexus.Dag.{nearest_common_ancestor}
use attow_nexus.Auth.{grant_requested, channel_write, channel_checkpoint}
use attow_nexus.Bus.State.{Mpsc}
use attow_nexus.Bus.Calls.{broadcast}
use attow_nexus.Bus.Presence.{register_agent}
use attow_nexus.Ledger.Commit.{CommitExtras, from_delta}
use attow_nexus.Ledger.Diff.{diff_commits, natural}
use attow_nexus.Ledger.Rollback.{new_id, rollback, fork}
use attow_nexus.Ledger.Replay.{replay}
use attow_nexus.Ledger.Store.Calls.{get_commit, list_commits}
use attow_nexus.Ledger.Store.Heads.{list_runs}
use attow_nexus.Service.State.{App, on_store, on_bus, tick}
use attow_nexus.Service.Commits.{
  json_payload, empty_json_payload, normalize_delta, ensure_channel_permission, prepare_payload,
  resolve_parents, persist_commit, inspect_loop,
}

-- `nonempty`
pub nonempty : String → Option String
nonempty value = if value == "" then none else some value

module _ (p : Platform) {Chan : Type 0} where
  unfoldable pub register_agent_inner : RegisterAgentRequest → Exec (App Chan) RegisterAgentResponse
  register_agent_inner request s =
      let granted = grant_requested s.config request.requested_scopes in
      (
        ok (record {
          accepted = true;
          agent_id = request.agent_id;
          granted_scopes = granted;
          protocol_version = "nexus.v1";
        }),
        record s {
          grants = insert request.agent_id granted s.grants;
          bus = register_agent p request s.bus;
        },
      )

  module _ (mpsc : Mpsc Chan) (version : String) where
    -- The end of both writes: parents, commit, persistence, broadcast, loop inspection. `version` is
    -- CARGO_PKG_VERSION.
    unfoldable pub commit_delta :
        StateDelta → Payload → RedactionReport → List String → CommitExtras → Exec (App Chan) Commit
    commit_delta delta payload report explicit extras = do
      parents ← resolve_parents p delta explicit
      let commit = from_delta p delta parents payload report extras
      persist_commit p commit
      on_bus (broadcast mpsc delta commit.commit_id)
      inspect_loop p mpsc commit
      pure commit

    -- A delta that is neither durable nor persisted is only broadcast.
    unfoldable pub publish_ephemeral :
        StateDelta → RedactionReport → Exec (App Chan) PublishDeltaResponse
    publish_ephemeral delta report = do
      on_bus (broadcast mpsc delta "")
      pure (record {
        delta_id = delta.delta_id;
        commit_id = "";
        accepted = true;
        persisted = false;
        warning = "";
        redaction_report = some report;
      })

    unfoldable pub publish_delta_inner : PublishDeltaRequest → Exec (App Chan) PublishDeltaResponse
    unfolding commit_delta publish_ephemeral
    publish_delta_inner request = do
      raw ← lift (ok_or request.delta "PublishDeltaRequest.delta is required")
      delta ← normalize_delta p raw
      ensure_channel_permission p delta.agent_id (channel_write delta.channel)
      (payload, report, refs) ← prepare_payload p delta.payload
      let stored : StateDelta = record delta { payload = some payload }
      config ← gets (λ s. s.config)
      if not delta.durable && not config.persist_ephemeral
          then publish_ephemeral stored report
          else do
            commit ← commit_delta stored payload report request.parent_commit_ids (record {
              objective = request.objective;
              tool_calls = [];
              tool_results = [];
              artifact_refs = refs;
              external_side_effects = [];
              sdk_name = "nexusd";
              sdk_version = version;
            })
            pure (record {
              delta_id = delta.delta_id;
              commit_id = commit.commit_id;
              accepted = true;
              persisted = true;
              warning = "";
              redaction_report = some report;
            })

    -- The delta that `checkpoint_inner` makes of a request.
    unfoldable pub checkpoint_delta : CheckpointRequest → Exec (App Chan) StateDelta
    checkpoint_delta request = do
      id ← tick
      at ← tick
      normalize_delta p (record {
        delta_id = new_id p "delta" id;
        channel = request.channel;
        agent_id = request.agent_id;
        run_id = request.run_id;
        thread_id = request.thread_id;
        logical_clock = 0;
        wall_time = some (p.now at);
        payload =
            some (elim request.payload [ none ↦ empty_json_payload p | some payload ↦ payload ]);
        durable = true;
        tags = request.tags;
        summary = request.summary;
        metadata = request.metadata;
      })

    unfoldable pub checkpoint_inner : CheckpointRequest → Exec (App Chan) CheckpointResponse
    unfolding commit_delta checkpoint_delta
    checkpoint_inner request = do
      ensure_channel_permission p request.agent_id (channel_checkpoint request.channel)
      delta ← checkpoint_delta request
      (payload, report, refs) ← prepare_payload p delta.payload
      commit ←
          commit_delta (record delta { payload = some payload }) payload report
            request.parent_commit_ids
            (record {
              objective = request.objective;
              tool_calls = request.tool_calls;
              tool_results = request.tool_results;
              artifact_refs = refs ++ request.artifact_refs;
              external_side_effects = request.external_side_effects;
              sdk_name = "nexusd";
              sdk_version = version;
            })
      pure (record {
        commit_id = commit.commit_id;
        delta_id = delta.delta_id;
        accepted = true;
        persisted = true;
        warning = "";
        redaction_report = some report;
      })

  -- the commit that the difference starts from
  unfoldable pub base_commit : DiffCommitsRequest → Exec (App Chan) String
  base_commit request s =
      pure
        (if request.from_nearest_common_ancestor
          then (elim (nearest_common_ancestor s.dag request.from_commit_id request.to_commit_id) [
            | none ↦ request.from_commit_id
            | some id ↦ id
          ])
          else request.from_commit_id)
        s

  unfoldable pub diff_inner : DiffCommitsRequest → Exec (App Chan) CommitDiff
  unfolding base_commit
  diff_inner request = do
    from_id ← base_commit request
    found_from ← on_store (get_commit p from_id)
    from ← lift (ok_or found_from "from commit not found")
    found_to ← on_store (get_commit p request.to_commit_id)
    to ← lift (ok_or found_to "to commit not found")
    pure (diff_commits p from to)

  unfoldable pub replay_inner : ReplayRequest → Exec (App Chan) ReplayResult
  replay_inner request = on_store (replay p request)

  unfoldable pub fork_inner : ForkRequest → Exec (App Chan) ForkResult
  fork_inner request = on_store (fork p request)

  unfoldable pub rollback_inner : RollbackRequest → Exec (App Chan) RollbackResponse
  rollback_inner request s = on_store (rollback p s.dag request) s

  unfoldable pub get_commit_inner : String → Exec (App Chan) Commit
  get_commit_inner id = do found ← on_store (get_commit p id); lift (ok_or found "commit not found")

  unfoldable pub list_commits_inner : String → String → String → Exec (App Chan) (List Commit)
  unfolding nonempty
  list_commits_inner run thread channel =
      on_store (list_commits p (nonempty run) (nonempty thread) (nonempty channel))

unfoldable pub list_runs_inner : {Chan : Type 0} → Exec (App Chan) (List RunSummary)
list_runs_inner = on_store list_runs

-- `AppState::health`; `version` is CARGO_PKG_VERSION
pub health : {Chan : Type 0} → String → App Chan → HealthResponse
health version s = record {
  status = "ok";
  daemon_version = version;
  protocol_version = "nexus.v1";
  auth_required = s.config.require_auth;
  bind_mode = s.config.bind_mode;
}
