-- ===== src/Grpc/Steps.antt =====
-- On the methods and the stream of daemon/src/grpc/service.rs: what a call does to the graph and the
-- table of commits.
use attow_nexus.Prelude.Exec.{Exec}
use attow_nexus.Prelude.{String, ◌≡◌, refl, Option, none, some, [], inl, inr, Option-cases}
use attow_nexus.Platform.{Platform}
use attow_nexus.Proto.Messages.{
  RegisterAgentRequest, PublishDeltaRequest, SubscribeRequest, CheckpointRequest,
  ListCommitsRequest, DiffCommitsRequest, ReplayRequest, ForkRequest, RollbackRequest,
  ExportRunRequest, ClientEvent,
}
use attow_nexus.Proto.Messages
use attow_nexus.Bus.State.{Mpsc}
use attow_nexus.Service.State.{App}
use attow_nexus.Service.Publish.{
  register_agent_inner, publish_delta_inner, checkpoint_inner, diff_inner, replay_inner, fork_inner,
  rollback_inner, get_commit_inner, list_commits_inner, list_runs_inner,
}
use attow_nexus.Service.Export.{export_run_inner}
use attow_nexus.Service.Steady.{IsQuiet, kept, Step, IsStep}
use attow_nexus.Service.Steady.Reads.{
  register_agent_inner-IsQuiet, diff_inner-IsQuiet, replay_inner-IsQuiet, fork_inner-IsQuiet,
  rollback_inner-IsQuiet, get_commit_inner-IsQuiet, list_commits_inner-IsQuiet,
  list_runs_inner-IsQuiet, export_run_inner-IsQuiet,
}
use attow_nexus.Service.Steady.Writes.{publish_delta_inner-IsStep, checkpoint_inner-IsStep}
use attow_nexus.Grpc.Status.{Answer, call, intercept, validate_grpc}
use attow_nexus.Grpc.Calls
use attow_nexus.Grpc.Stream.{on_event, publish}

-- A call of a unary method, or of `subscribe`.
pub data Rpc : Type 0 where
  register_agent : RegisterAgentRequest → Rpc
  publish_delta : PublishDeltaRequest → Rpc
  subscribe : SubscribeRequest → Rpc
  get_channel_snapshot : String → Rpc
  checkpoint : CheckpointRequest → Rpc
  get_commit : String → Rpc
  list_commits : ListCommitsRequest → Rpc
  diff_commits : DiffCommitsRequest → Rpc
  replay : ReplayRequest → Rpc
  fork : ForkRequest → Rpc
  rollback : RollbackRequest → Rpc
  export_run : ExportRunRequest → Rpc
  list_runs health : Rpc

module _ (p : Platform) {Chan : Type 0} (mpsc : Mpsc Chan) (version : String) where
  -- the state after a call behind the interceptor, whatever it answers
  unfoldable pub invoke : Option String → Rpc → App Chan → App Chan
  invoke header (register_agent request) s =
      (intercept p (λ t. t.config) header (Calls.register_agent p mpsc version request) s).1
  invoke header (publish_delta request) s =
      (intercept p (λ t. t.config) header (Calls.publish_delta p mpsc version request) s).1
  invoke header (subscribe request) s =
      (intercept p (λ t. t.config) header (Calls.subscribe p mpsc version request) s).1
  invoke header (get_channel_snapshot name) s =
      (intercept p (λ t. t.config) header (Calls.get_channel_snapshot p mpsc version name) s).1
  invoke header (checkpoint request) s =
      (intercept p (λ t. t.config) header (Calls.checkpoint p mpsc version request) s).1
  invoke header (get_commit name) s =
      (intercept p (λ t. t.config) header (Calls.get_commit p mpsc version name) s).1
  invoke header (list_commits request) s =
      (intercept p (λ t. t.config) header (Calls.list_commits p mpsc version request) s).1
  invoke header (diff_commits request) s =
      (intercept p (λ t. t.config) header (Calls.diff_commits p mpsc version request) s).1
  invoke header (replay request) s =
      (intercept p (λ t. t.config) header (Calls.replay p mpsc version request) s).1
  invoke header (fork request) s =
      (intercept p (λ t. t.config) header (Calls.fork p mpsc version request) s).1
  invoke header (rollback request) s =
      (intercept p (λ t. t.config) header (Calls.rollback p mpsc version request) s).1
  invoke header (export_run request) s =
      (intercept p (λ t. t.config) header (Calls.export_run p mpsc version request) s).1
  invoke header list_runs s =
      (intercept p (λ t. t.config) header (Calls.list_runs p mpsc version) s).1
  invoke header health s = (intercept p (λ t. t.config) header (Calls.health p mpsc version) s).1

  intercept-IsStep :
      {A : Type 0} (header : Option String) (method : App Chan → Answer A × App Chan)
      → IsStep p method
      → IsStep p (intercept p (λ t. t.config) header method)
  unfolding intercept
  intercept-IsStep header method step s h = elim (Option-cases (validate_grpc p header s.config)) [
    | inl passed ↦ rw (intercept, passed) (step s h)
    | inr (refused, e) ↦ rw (intercept, e) (kept (h, refl, refl))
  ]

  quiet_call : {A : Type 0} (m : Exec (App Chan) A) → IsQuiet m → IsStep p (call m)
  unfolding call
  quiet_call m quiet s h = kept (quiet s h)

  call-IsStep : {A : Type 0} (m : Exec (App Chan) A) → IsStep p m → IsStep p (call m)
  unfolding call
  call-IsStep m step s h = step s h

  -- Whatever a call over gRPC is and answers, the graph and the table of commits are left as they
  -- were, or the same one commit is appended to both.
  pub invoke-Step :
      (header : Option String) (rpc : Rpc) (s : App Chan)
      → s.store.faults ≡ []
      → Step p s (invoke header rpc s)
  unfolding invoke Calls.register_agent Calls.publish_delta Calls.subscribe
      Calls.get_channel_snapshot Calls.checkpoint Calls.get_commit Calls.list_runs
      Calls.list_commits Calls.diff_commits Calls.replay Calls.fork Calls.rollback Calls.export_run
      Calls.health
  invoke-Step header (register_agent request) s h =
      intercept-IsStep header (Calls.register_agent p mpsc version request)
        (quiet_call (register_agent_inner p request) (register_agent_inner-IsQuiet p request)) s h
  invoke-Step header (publish_delta request) s h =
      intercept-IsStep header (Calls.publish_delta p mpsc version request)
        (call-IsStep (publish_delta_inner p mpsc version request)
          (publish_delta_inner-IsStep p mpsc version request))
        s h
  invoke-Step header (subscribe request) s h =
      intercept-IsStep header (Calls.subscribe p mpsc version request) (λ t g. kept (g, refl, refl))
        s h
  invoke-Step header (get_channel_snapshot name) s h =
      intercept-IsStep header (Calls.get_channel_snapshot p mpsc version name)
        (λ t g. kept (g, refl, refl)) s h
  invoke-Step header (checkpoint request) s h =
      intercept-IsStep header (Calls.checkpoint p mpsc version request)
        (call-IsStep (checkpoint_inner p mpsc version request)
          (checkpoint_inner-IsStep p mpsc version request))
        s h
  invoke-Step header (get_commit name) s h =
      intercept-IsStep header (Calls.get_commit p mpsc version name)
        (quiet_call (get_commit_inner p name) (get_commit_inner-IsQuiet p name)) s h
  invoke-Step header (list_commits request) s h =
      intercept-IsStep header (Calls.list_commits p mpsc version request)
        (quiet_call (list_commits_inner p request.run_id request.thread_id request.channel)
          (list_commits_inner-IsQuiet p request.run_id request.thread_id request.channel))
        s h
  invoke-Step header (diff_commits request) s h =
      intercept-IsStep header (Calls.diff_commits p mpsc version request)
        (quiet_call (diff_inner p request) (diff_inner-IsQuiet p request)) s h
  invoke-Step header (replay request) s h =
      intercept-IsStep header (Calls.replay p mpsc version request)
        (quiet_call (replay_inner p request) (replay_inner-IsQuiet p request)) s h
  invoke-Step header (fork request) s h =
      intercept-IsStep header (Calls.fork p mpsc version request)
        (quiet_call (fork_inner p request) (fork_inner-IsQuiet p request)) s h
  invoke-Step header (rollback request) s h =
      intercept-IsStep header (Calls.rollback p mpsc version request)
        (quiet_call (rollback_inner p request) (rollback_inner-IsQuiet p request)) s h
  invoke-Step header (export_run request) s h =
      intercept-IsStep header (Calls.export_run p mpsc version request)
        (quiet_call (export_run_inner p request) (export_run_inner-IsQuiet p request)) s h
  invoke-Step header list_runs s h =
      intercept-IsStep header (Calls.list_runs p mpsc version)
        (quiet_call list_runs_inner list_runs_inner-IsQuiet) s h
  invoke-Step header health s h =
      intercept-IsStep header (Calls.health p mpsc version) (λ t g. kept (g, refl, refl)) s h

  -- The same of each message of a stream.
  pub on_event-IsStep : (message : Option ClientEvent) → IsStep p (on_event p mpsc version message)
  unfolding on_event publish
  on_event-IsStep none s h = kept (h, refl, refl)
  on_event-IsStep (some (Messages.publish_delta request)) s h =
      publish_delta_inner-IsStep p mpsc version request s h
  on_event-IsStep (some (Messages.checkpoint request)) s h =
      publish_delta_inner-IsStep p mpsc version request s h
  on_event-IsStep (some (Messages.heartbeat r)) s h = kept (h, refl, refl)
  on_event-IsStep (some (Messages.subscribe r)) s h = kept (h, refl, refl)
  on_event-IsStep (some (Messages.unsubscribe r)) s h = kept (h, refl, refl)
  on_event-IsStep (some (Messages.record_tool_started r)) s h = kept (h, refl, refl)
  on_event-IsStep (some (Messages.record_tool_finished r)) s h = kept (h, refl, refl)
  on_event-IsStep (some (Messages.record_side_effect r)) s h = kept (h, refl, refl)
  on_event-IsStep (some (Messages.shutdown r)) s h = kept (h, refl, refl)
