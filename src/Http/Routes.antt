-- ===== src/Http/Routes.antt =====
-- The table of the routes.
pub mod Refused
pub mod Replies
pub mod Steps
use attow_nexus.Prelude.{String, Option, List}
use attow_nexus.Platform.{Platform}
use attow_nexus.Json.{Value}
use attow_nexus.Metrics.{MetricsSummary}
use attow_nexus.Bus.State.{Mpsc, AgentInfo, ChannelInfo, DeltaInfo}
use attow_nexus.Service.State.{App}
use attow_nexus.Http.Handler.{Handler, answer, ◌>>=◌}
use attow_nexus.Http.Bodies.{
  RegisterAgentBody, PublishDeltaBody, CheckpointBody, DiffQuery, ReplayBody, ForkBody,
  RollbackBody,
}
use attow_nexus.Http.Handlers.{
  health, agents, register_agent, channels, channel_snapshot, channel_deltas, publish_delta,
  universal_event, checkpoint, runs, run_commits, commit, diff_query, replay, fork, rollback,
  loop_warnings, metrics_summary, stream_event,
}

-- A request of a route that `serve` binds.
pub data Request : Type 0 where
  get_health get_agents get_channels get_runs get_loop_warnings get_metrics_summary
        get_events_stream :
      Request
  post_register : RegisterAgentBody → Request
  get_snapshot get_deltas get_run_commits get_commit : String → Request
  post_delta : PublishDeltaBody → Request
  post_event : Value → Request
  post_checkpoint : CheckpointBody → Request
  get_diff : DiffQuery → Request
  post_replay : ReplayBody → Request
  post_fork : ForkBody → Request
  post_rollback : RollbackBody → Request

-- What the handlers answer with, before `Json(..)` serialises it.
pub data Answer : Type 0 where
  value : Value → Answer
  values : List Value → Answer
  agent_list : List AgentInfo → Answer
  channel_list : List ChannelInfo → Answer
  delta_list : List DeltaInfo → Answer
  metrics : MetricsSummary → Answer
  event : String → Answer

abbrev as_answer : {S A : Type 0} → (A → Answer) → Handler S A → Handler S Answer
as_answer f h = h >>= λ a. answer (f a)

module _ (p : Platform) {Chan : Type 0} (mpsc : Mpsc Chan) (version : String) where
  unfoldable pub serve : Option String → Request → Handler (App Chan) Answer
  serve header get_health = as_answer value (health p mpsc version)
  serve header get_agents = as_answer agent_list (agents p mpsc version header)
  serve header get_channels = as_answer channel_list (channels p mpsc version header)
  serve header get_runs = as_answer values (runs p mpsc version header)
  serve header get_loop_warnings = as_answer values (loop_warnings p mpsc version header)
  serve header get_metrics_summary = as_answer metrics (metrics_summary p mpsc version header)
  serve header get_events_stream = as_answer event (stream_event p mpsc version)
  serve header (post_register body) = as_answer value (register_agent p mpsc version header body)
  serve header (get_snapshot channel) =
      as_answer value (channel_snapshot p mpsc version header channel)
  serve header (get_deltas channel) =
      as_answer delta_list (channel_deltas p mpsc version header channel)
  serve header (get_run_commits run) = as_answer values (run_commits p mpsc version header run)
  serve header (get_commit id) = as_answer value (commit p mpsc version header id)
  serve header (post_delta body) = as_answer value (publish_delta p mpsc version header body)
  serve header (post_event body) = as_answer value (universal_event p mpsc version header body)
  serve header (post_checkpoint body) = as_answer value (checkpoint p mpsc version header body)
  serve header (get_diff query) = as_answer value (diff_query p mpsc version header query)
  serve header (post_replay body) = as_answer value (replay p mpsc version header body)
  serve header (post_fork body) = as_answer value (fork p mpsc version header body)
  serve header (post_rollback body) = as_answer value (rollback p mpsc version header body)
