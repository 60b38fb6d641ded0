-- ===== src/Service/Steady/Writes.antt =====
-- The two writes: each appends at most one commit, to the graph and to the table of commits alike.
use attow_nexus.Prelude.{String, ◌≡◌, refl, ◌&&◌, not, some, List, [], ◌++◌, Result, ok, err, ok_or}
use attow_nexus.Platform.{Platform}
use attow_nexus.Proto.{Payload, RedactionReport, Commit}
use attow_nexus.Proto.Messages.{StateDelta, PublishDeltaRequest, CheckpointRequest}
use attow_nexus.Auth.{channel_write, channel_checkpoint}
use attow_nexus.Dag.{append}
use attow_nexus.Bus.State.{Mpsc}
use attow_nexus.Ledger.Commit.{CommitExtras, from_delta}
use attow_nexus.Ledger.Store.Heads.{write_head}
use attow_nexus.Ledger.Store.Calls.{write_commit}
use attow_nexus.Service.Commits.{
  normalize_delta, ensure_channel_permission, prepare_payload, resolve_parents, persist_commit,
  inspect_loop,
}
use attow_nexus.Service.Commits.Persist.{persist_commit_refused, persist_commit_healthy}
use attow_nexus.Service.Publish.{
  commit_delta, publish_ephemeral, checkpoint_delta, publish_delta_inner, checkpoint_inner,
}
use attow_nexus.Service.Steady.{
  IsQuiet, IsQuiet-bind, Step, kept, added, IsStep, IsStep-after, IsStep-before, IsStep-if,
  IsQuiet-IsStep, Step-continue,
}
use attow_nexus.Service.Steady.Parts.{
  normalize_delta-IsQuiet, ensure_channel_permission-IsQuiet, prepare_payload-IsQuiet,
  resolve_parents-IsQuiet, inspect_loop-IsQuiet,
}

module _ (p : Platform) {Chan : Type 0} where
  pub persist_commit-IsStep : (c : Commit) → IsStep p (persist_commit p {Chan = Chan} c)
  unfolding write_head write_commit
  persist_commit-IsStep c s h = by_append (append c.commit_id c.parent_commit_ids s.dag) refl
    where
      by_append :
          (r : Result _)
          → append c.commit_id c.parent_commit_ids s.dag ≡ r
          → Step p s (persist_commit p c s).1
      by_append (ok dag) e = rw (persist_commit_healthy p c dag s h e) (added c dag e refl refl h)
      by_append (err e) refused = rw (persist_commit_refused p c e s refused) (kept (h, refl, refl))

  module _ (mpsc : Mpsc Chan) (version : String) where
    commit_delta-IsStep :
        (delta : StateDelta) (payload : Payload) (report : RedactionReport) (explicit : List String)
        (extras : CommitExtras)
        → IsStep p (commit_delta p mpsc version delta payload report explicit extras)
    unfolding commit_delta
    commit_delta-IsStep delta payload report explicit extras =
        IsStep-after p (resolve_parents p delta explicit) _
          (resolve_parents-IsQuiet p delta explicit)
          (λ parents.
            let c = from_delta p delta parents payload report extras in
            IsStep-before p (persist_commit p c) _ (persist_commit-IsStep c) (λ _ s h.
              IsQuiet-bind (inspect_loop p mpsc c) _ (inspect_loop-IsQuiet p mpsc c)
                (λ _ t g. (g, refl, refl)) _ h))

    publish_ephemeral-IsQuiet :
        (delta : StateDelta) (report : RedactionReport)
        → IsQuiet (publish_ephemeral p mpsc version delta report)
    unfolding publish_ephemeral
    publish_ephemeral-IsQuiet delta report s h = (h, refl, refl)

    -- Whatever a publication answers, it leaves the graph and the table of commits as they were or
    -- appends the same one commit to both.
    pub publish_delta_inner-IsStep :
        (request : PublishDeltaRequest) → IsStep p (publish_delta_inner p mpsc version request)
    unfolding publish_delta_inner
    publish_delta_inner-IsStep request s h =
        Step-continue p (ok_or request.delta "PublishDeltaRequest.delta is required") _ s s
          (h, refl, refl)
          (λ raw. IsStep-after p (normalize_delta p raw) _ (normalize_delta-IsQuiet p raw) (λ delta.
            IsStep-after p
              (ensure_channel_permission p delta.agent_id (channel_write delta.channel)) _
              (ensure_channel_permission-IsQuiet p delta.agent_id (channel_write delta.channel))
              (λ _.
                IsStep-after p (prepare_payload p delta.payload) _
                  (prepare_payload-IsQuiet p delta.payload)
                  (λ stored t g.
                    let sent : StateDelta = record delta { payload = some stored.0 } in
                    let extras : CommitExtras = record {
                      objective = request.objective;
                      tool_calls = [];
                      tool_results = [];
                      artifact_refs = stored.2;
                      external_side_effects = [];
                      sdk_name = "nexusd";
                      sdk_version = version;
                    } in
                    IsStep-if p (not delta.durable && not t.config.persist_ephemeral)
                      (publish_ephemeral p mpsc version sent stored.1) _
                      (IsQuiet-IsStep p (publish_ephemeral p mpsc version sent stored.1)
                        (publish_ephemeral-IsQuiet sent stored.1))
                      (IsStep-before p
                        (commit_delta p mpsc version sent stored.0 stored.1
                          request.parent_commit_ids extras)
                        _
                        (commit_delta-IsStep sent stored.0 stored.1 request.parent_commit_ids
                          extras)
                        (λ _ u k. (k, refl, refl)))
                      t g))))

    checkpoint_delta-IsQuiet :
        (request : CheckpointRequest) → IsQuiet (checkpoint_delta p mpsc version request)
    unfolding checkpoint_delta
    checkpoint_delta-IsQuiet request s h = normalize_delta-IsQuiet p _ _ h

    pub checkpoint_inner-IsStep :
        (request : CheckpointRequest) → IsStep p (checkpoint_inner p mpsc version request)
    unfolding checkpoint_inner
    checkpoint_inner-IsStep request =
        IsStep-after p
          (ensure_channel_permission p request.agent_id (channel_checkpoint request.channel)) _
          (ensure_channel_permission-IsQuiet p request.agent_id
            (channel_checkpoint request.channel))
          (λ _.
            IsStep-after p (checkpoint_delta p mpsc version request) _
              (checkpoint_delta-IsQuiet request)
              (λ delta.
                IsStep-after p (prepare_payload p delta.payload) _
                  (prepare_payload-IsQuiet p delta.payload)
                  (λ stored.
                    let sent : StateDelta = record delta { payload = some stored.0 } in
                    let extras : CommitExtras = record {
                      objective = request.objective;
                      tool_calls = request.tool_calls;
                      tool_results = request.tool_results;
                      artifact_refs = stored.2 ++ request.artifact_refs;
                      external_side_effects = request.external_side_effects;
                      sdk_name = "nexusd";
                      sdk_version = version;
                    } in
                    IsStep-before p
                      (commit_delta p mpsc version sent stored.0 stored.1 request.parent_commit_ids
                        extras)
                      _
                      (commit_delta-IsStep sent stored.0 stored.1 request.parent_commit_ids extras)
                      (λ _ u k. (k, refl, refl)))))
