-- ===== src/Http/Routes/Steps.antt =====
-- On the handlers of daemon/src/http/api.rs: what a request does to the graph and the table of commits.
use attow_nexus.Prelude.{String, refl, Option, some, none, List, [], ◌∷◌, map}
use attow_nexus.Platform.{Platform}
use attow_nexus.Json.{Value}
use attow_nexus.Metrics.{summary}
use attow_nexus.Bus.State.{Mpsc}
use attow_nexus.Bus.Calls
use attow_nexus.Bus.Calls.{snapshot, recent}
use attow_nexus.Bus.Presence
use attow_nexus.Ledger.Store.Calls.{list_commits}
use attow_nexus.Ledger.Store.Heads.{list_runs}
use attow_nexus.Ledger.Store.Artifacts.{list_loop_warnings}
use attow_nexus.Ledger.Store.Steady.{list_runs-IsSteady, list_loop_warnings-IsSteady}
use attow_nexus.Service.State.{on_store, tick}
use attow_nexus.Service.Publish.{
  register_agent_inner, publish_delta_inner, checkpoint_inner, diff_inner, replay_inner, fork_inner,
  rollback_inner, get_commit_inner,
}
use attow_nexus.Service.Steady.{IsQuiet, IsQuiet-bind, IsQuiet-on_store, kept, IsStep}
use attow_nexus.Service.Steady.Reads.{
  register_agent_inner-IsQuiet, diff_inner-IsQuiet, replay_inner-IsQuiet, fork_inner-IsQuiet,
  rollback_inner-IsQuiet, get_commit_inner-IsQuiet, on_list_commits-IsQuiet,
}
use attow_nexus.Service.Steady.Writes.{publish_delta_inner-IsStep, checkpoint_inner-IsStep}
use attow_nexus.Http.Steps.{
  Step-and_then, call-IsStep, after_call, guarded, answered, reads, quietly,
}
use attow_nexus.Http.Bodies.{
  SideEffectBody, PublishDeltaBody, CheckpointBody, into_proto, effect_id, side_effects, unwrap_or,
}
use attow_nexus.Http.Render.{
  commit_summary, commit_detail, run_json, warning_json, registered_json, snapshot_json,
  published_json, checkpoint_json, diff_json, replay_json, fork_json, rollback_json,
}
use attow_nexus.Http.Events.{try_from_value}
use attow_nexus.Http.Handlers.{
  checkpoint_request, event_request, health, agents, register_agent, channels, channel_snapshot,
  channel_deltas, publish_delta, universal_event, checkpoint, runs, run_commits, commit, diff_query,
  replay, fork, rollback, loop_warnings, metrics_summary, stream_event,
}
use attow_nexus.Http.Routes.{
  Request, get_health, get_agents, get_channels, get_runs, get_loop_warnings, get_metrics_summary,
  get_events_stream, post_register, get_snapshot, get_deltas, get_run_commits, get_commit,
  post_delta, post_event, post_checkpoint, get_diff, post_replay, post_fork, post_rollback, serve,
}

module _ (p : Platform) {Chan : Type 0} where
  effect_id-IsQuiet : (id : Option String) → IsQuiet {Chan = Chan} (effect_id p id)
  unfolding effect_id
  effect_id-IsQuiet none s h = (h, refl, refl)
  effect_id-IsQuiet (some id) s h = (h, refl, refl)

  into_proto-IsQuiet : (body : SideEffectBody) → IsQuiet {Chan = Chan} (into_proto p body)
  unfolding into_proto
  into_proto-IsQuiet body =
      IsQuiet-bind (effect_id p body.side_effect_id) _ (effect_id-IsQuiet body.side_effect_id)
        (λ id s h. (h, refl, refl))

  side_effects-IsQuiet :
      (bodies : List SideEffectBody) → IsQuiet {Chan = Chan} (side_effects p bodies)
  unfolding side_effects
  side_effects-IsQuiet [] s h = (h, refl, refl)
  side_effects-IsQuiet (body ∷ bodies) s h =
      IsQuiet-bind (into_proto p body) _ (into_proto-IsQuiet body)
        (λ effect.
          IsQuiet-bind (side_effects p bodies) _ (side_effects-IsQuiet bodies)
            (λ _ t g. (g, refl, refl)))
        s h

  module _ (mpsc : Mpsc Chan) (version : String) where
    publish_delta-IsStep :
        (header : Option String) (body : PublishDeltaBody)
        → IsStep p (publish_delta p mpsc version header body)
    unfolding publish_delta
    publish_delta-IsStep header body = guarded p header _ (
        after_call p tick _ (λ s h. (h, refl, refl))
          (λ id.
            after_call p tick _ (λ s h. (h, refl, refl))
              (λ at.
                call-IsStep p (publish_delta_inner p mpsc version _) published_json
                  (publish_delta_inner-IsStep p mpsc version _))))

    checkpoint-IsStep :
        (header : Option String) (body : CheckpointBody)
        → IsStep p (checkpoint p mpsc version header body)
    unfolding checkpoint
    checkpoint-IsStep header body = guarded p header _ (
        after_call p (side_effects p (unwrap_or [] body.external_side_effects)) _
          (side_effects-IsQuiet (unwrap_or [] body.external_side_effects))
          (λ effects.
            call-IsStep p
              (checkpoint_inner p mpsc version (checkpoint_request p mpsc version body effects))
              checkpoint_json
              (checkpoint_inner-IsStep p mpsc version
                (checkpoint_request p mpsc version body effects))))

    universal_event-IsStep :
        (header : Option String) (value : Value)
        → IsStep p (universal_event p mpsc version header value)
    unfolding universal_event
    universal_event-IsStep header value = guarded p header _ (λ s h.
        Step-and_then p (try_from_value p.is_match value) _ s s (h, refl, refl)
          (λ body.
            call-IsStep p
              (checkpoint_inner p mpsc version (event_request p mpsc version value body))
              checkpoint_json
              (checkpoint_inner-IsStep p mpsc version (event_request p mpsc version value body))))

    -- Whatever a request over HTTP is and answers, the graph and the table of commits are left as they
    -- were, or the same one commit is appended to both.
    pub serve-IsStep :
        (header : Option String) (request : Request)
        → IsStep p (serve p mpsc version header request)
    unfolding serve health agents register_agent channels channel_snapshot channel_deltas runs
        run_commits commit diff_query replay fork rollback loop_warnings metrics_summary
        stream_event
    serve-IsStep header get_health = λ s h. kept (h, refl, refl)
    serve-IsStep header get_events_stream = λ s h. kept (h, refl, refl)
    serve-IsStep header get_agents =
        answered p (agents p mpsc version header) _ (reads p header (λ s. Presence.agents s.bus))
    serve-IsStep header get_channels =
        answered p (channels p mpsc version header) _ (reads p header (λ s. Calls.channels s.bus))
    serve-IsStep header (get_snapshot channel) =
        answered p (channel_snapshot p mpsc version header channel) _
          (reads p header (λ s. snapshot_json p (snapshot channel s.bus)))
    serve-IsStep header (get_deltas channel) =
        answered p (channel_deltas p mpsc version header channel) _
          (reads p header (λ s. recent (some channel) s.bus))
    serve-IsStep header get_metrics_summary =
        answered p (metrics_summary p mpsc version header) _
          (reads p header (λ s. summary s.bus.metrics))
    serve-IsStep header get_runs = answered p (runs p mpsc version header) _ (
        quietly p header (on_store list_runs) (map run_json)
          (IsQuiet-on_store list_runs list_runs-IsSteady))
    serve-IsStep header get_loop_warnings = answered p (loop_warnings p mpsc version header) _ (
        quietly p header (on_store (list_loop_warnings p)) (map warning_json)
          (IsQuiet-on_store (list_loop_warnings p) (list_loop_warnings-IsSteady p)))
    serve-IsStep header (get_run_commits run) =
        answered p (run_commits p mpsc version header run) _ (
          quietly p header (on_store (list_commits p (some run) none none)) (map commit_summary)
            (on_list_commits-IsQuiet p (some run) none none))
    serve-IsStep header (get_commit id) =
        answered p (commit p mpsc version header id) _ (
          quietly p header (get_commit_inner p id) (commit_detail p)
            (get_commit_inner-IsQuiet p id))
    serve-IsStep header (post_register body) =
        answered p (register_agent p mpsc version header body) _ (
          quietly p header (register_agent_inner p _) registered_json
            (register_agent_inner-IsQuiet p _))
    serve-IsStep header (get_diff query) =
        answered p (diff_query p mpsc version header query) _
          (quietly p header (diff_inner p _) (diff_json p) (diff_inner-IsQuiet p _))
    serve-IsStep header (post_replay body) =
        answered p (replay p mpsc version header body) _
          (quietly p header (replay_inner p _) (replay_json p) (replay_inner-IsQuiet p _))
    serve-IsStep header (post_fork body) =
        answered p (fork p mpsc version header body) _
          (quietly p header (fork_inner p _) fork_json (fork_inner-IsQuiet p _))
    serve-IsStep header (post_rollback body) =
        answered p (rollback p mpsc version header body) _
          (quietly p header (rollback_inner p _) rollback_json (rollback_inner-IsQuiet p _))
    serve-IsStep header (post_delta body) =
        answered p (publish_delta p mpsc version header body) _ (publish_delta-IsStep header body)
    serve-IsStep header (post_event value) =
        answered p (universal_event p mpsc version header value) _
          (universal_event-IsStep header value)
    serve-IsStep header (post_checkpoint body) =
        answered p (checkpoint p mpsc version header body) _ (checkpoint-IsStep header body)
