-- ===== src/Grpc/Calls.antt =====
-- The unary methods of `NexusGrpc`, and `subscribe`.
use attow_nexus.Prelude.{ℕ, String, false, Option, none, some, List, [], ◌∷◌, eqb, if◌then◌else◌}
use attow_nexus.Platform.{Platform}
use attow_nexus.Proto.{Commit, CommitDiff, RunSummary}
use attow_nexus.Proto.Messages.{
  RegisterAgentRequest, RegisterAgentResponse, PublishDeltaRequest, PublishDeltaResponse,
  SubscribeRequest, SubscriptionFilter, ChannelSnapshotResponse, CheckpointRequest,
  CheckpointResponse, DiffCommitsRequest, ReplayRequest, ReplayResult, ForkRequest, ForkResult,
  RollbackRequest, RollbackResponse, ExportRunRequest, ExportRunResponse, ListCommitsRequest,
  HealthResponse,
}
use attow_nexus.Bus.Calls
use attow_nexus.Bus.State.{Mpsc}
use attow_nexus.Service.State.{App}
use attow_nexus.Service.Publish
use attow_nexus.Service.Publish.{
  register_agent_inner, publish_delta_inner, checkpoint_inner, diff_inner, replay_inner, fork_inner,
  rollback_inner, get_commit_inner, list_commits_inner, list_runs_inner,
}
use attow_nexus.Service.Export.{export_run_inner}
use attow_nexus.Grpc.Status.{Answer, response, call}

abbrev pub Method : Type 0 → Type 0 → Type 0
Method Chan A = App Chan → Answer A × App Chan

-- DEFAULT_SUBSCRIPTION_QUEUE
abbrev default_subscription_queue : ℕ
default_subscription_queue = 1024

every_channel : Option SubscriptionFilter → SubscriptionFilter
every_channel none = record { channel_patterns = "*" ∷ []; durable_only = false; tags = [] }
every_channel (some filter) = filter

module _ (p : Platform) {Chan : Type 0} (mpsc : Mpsc Chan) (version : String) where
  unfoldable pub register_agent : RegisterAgentRequest → Method Chan RegisterAgentResponse
  register_agent request = call (register_agent_inner p request)

  unfoldable pub publish_delta : PublishDeltaRequest → Method Chan PublishDeltaResponse
  publish_delta request = call (publish_delta_inner p mpsc version request)

  -- The stream that is returned is the receiver of the subscription's queue.
  unfoldable pub subscribe : SubscribeRequest → Method Chan Unit
  unfolding every_channel
  subscribe request s = (
    response tt,
    record s {
      bus =
          Calls.subscribe mpsc request.subscriber_id (every_channel request.filter)
            (if eqb request.queue_capacity 0
              then default_subscription_queue
              else request.queue_capacity)
            s.bus;
    },
  )

  unfoldable pub get_channel_snapshot : String → Method Chan ChannelSnapshotResponse
  get_channel_snapshot channel s = (response (Calls.snapshot channel s.bus), s)

  unfoldable pub checkpoint : CheckpointRequest → Method Chan CheckpointResponse
  checkpoint request = call (checkpoint_inner p mpsc version request)

  unfoldable pub get_commit : String → Method Chan Commit
  get_commit commit_id = call (get_commit_inner p commit_id)

  unfoldable pub list_runs : Method Chan (List RunSummary)
  list_runs = call list_runs_inner

  unfoldable pub list_commits : ListCommitsRequest → Method Chan (List Commit)
  list_commits request =
      call (list_commits_inner p request.run_id request.thread_id request.channel)

  unfoldable pub diff_commits : DiffCommitsRequest → Method Chan CommitDiff
  diff_commits request = call (diff_inner p request)

  unfoldable pub replay : ReplayRequest → Method Chan ReplayResult
  replay request = call (replay_inner p request)

  unfoldable pub fork : ForkRequest → Method Chan ForkResult
  fork request = call (fork_inner p request)

  unfoldable pub rollback : RollbackRequest → Method Chan RollbackResponse
  rollback request = call (rollback_inner p request)

  unfoldable pub export_run : ExportRunRequest → Method Chan ExportRunResponse
  export_run request = call (export_run_inner p request)

  unfoldable pub health : Method Chan HealthResponse
  health s = (response (Publish.health version s), s)
