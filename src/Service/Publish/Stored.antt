-- ===== src/Service/Publish/Stored.antt =====
-- On `publish_delta_inner` of daemon/src/grpc/service.rs as a whole: what a durable publication leaves.
use attow_nexus.Prelude.Exec.{Exec, ◌>>=◌, pure}
use attow_nexus.Prelude.{
  String, ◌≡◌, refl, Bool, true, false, ◌&&◌, not, some, [], ltb, length, if◌then◌else◌, lookup,
  contains_key, or_nil, ok,
}
use attow_nexus.Platform.{Platform}
use attow_nexus.Proto.{Payload, RedactionReport}
use attow_nexus.Proto.Messages.{StateDelta, PublishDeltaRequest, PublishDeltaResponse}
use attow_nexus.Auth.{is_allowed, channel_write}
use attow_nexus.Dag.{DagIndex, append}
use attow_nexus.Bus.State.{Mpsc}
use attow_nexus.Ledger.Commit.{from_delta}
use attow_nexus.Ledger.Store.Calls.{get_commit, write_commit}
use attow_nexus.Ledger.Store.Heads.{get_head}
use attow_nexus.Ledger.Store.Laws.{get_commit-written}
use attow_nexus.Ledger.Rollback.Laws.{head_written}
use attow_nexus.Service.State.{App}
use attow_nexus.Service.Commits.Normalize.{IsComplete, normalize_delta-IsComplete}
use attow_nexus.Service.Publish.{commit_delta, publish_delta_inner}
use attow_nexus.Service.Publish.Parts.{
  redacted, commit_for, parents_for, head_of, ensure_channel_permission_ok, prepare_payload_inline,
  commit_delta_healthy,
}

module _ (p : Platform) {Chan : Type 0} (mpsc : Mpsc Chan) (version : String) where
  -- the second half of a publication, for a delta that is ready
  abbrev finish :
      PublishDeltaRequest
      → StateDelta
      → Payload
      → RedactionReport
      → Exec (App Chan) PublishDeltaResponse
  finish request delta payload report = do
    commit ←
        commit_delta p mpsc version (record delta { payload = some payload }) payload report
          request.parent_commit_ids
          (record {
            objective = request.objective;
            tool_calls = [];
            tool_results = [];
            artifact_refs = [];
            external_side_effects = [];
            sdk_name = "nexusd";
            sdk_version = version;
          })
    pure (record {
      delta_id = delta.delta_id;
      commit_id = commit.commit_id;
      accepted = true;
      persisted = true;
      warning = "";
      redaction_report = some report;
    })

  publish_durable :
      (durable ephemeral : Bool) (m n : Exec (App Chan) PublishDeltaResponse) (s : App Chan)
      → durable ≡ true
      → (if not durable && not ephemeral then m else n) s ≡ n s
  publish_durable durable ephemeral m n s e = rw e refl

  publish_delta_inner-finish :
      (request : PublishDeltaRequest) (delta : StateDelta) (s : App Chan)
      → request.delta ≡ some delta
      → IsComplete delta
      → delta.durable ≡ true
      → is_allowed s.config (or_nil (lookup delta.agent_id s.grants)) (channel_write delta.channel)
        ≡ true
      → ltb s.config.max_inline_payload_bytes
          (length (redacted p s.config.redaction_enabled delta.payload).0.content)
        ≡ false
      → let (payload, report) = redacted p s.config.redaction_enabled delta.payload in
        publish_delta_inner p mpsc version request s ≡ finish request delta payload report s
  unfolding publish_delta_inner
  publish_delta_inner-finish request delta s given complete durable allowed small = rw given (
      rw (normalize_delta-IsComplete p delta s complete) (
        rw (ensure_channel_permission_ok p delta.agent_id (channel_write delta.channel) s allowed) (
          rw (prepare_payload_inline p delta.payload s small)
            (publish_durable delta.durable s.config.persist_ephemeral _ _ s durable))))

  -- While no database call fails, take a publication of a delta that is durable, has an id, a time, a
  -- payload and metadata, is covered by a scope of its agent, and whose payload, once redacted, is
  -- small enough to stand in the commit. When its commit, whose parents are the ones named in the
  -- request or else the head that was there, has an id that is not stored, survives encoding, and
  -- is accepted by the graph, then the publication answers with that commit, the store reads it back
  -- under its id, it is the head of the delta's run, thread, agent and channel, the graph is
  -- the one that accepted it, and its payload is the redacted one.
  pub publish_delta_inner-stores :
      (request : PublishDeltaRequest) (delta : StateDelta) (dag : DagIndex) (s : App Chan)
      → s.store.faults ≡ []
      → request.delta ≡ some delta
      → IsComplete delta
      → delta.durable ≡ true
      → is_allowed s.config (or_nil (lookup delta.agent_id s.grants)) (channel_write delta.channel)
        ≡ true
      → ltb s.config.max_inline_payload_bytes
          (length (redacted p s.config.redaction_enabled delta.payload).0.content)
        ≡ false
      → let c =
          commit_for p version s.config.redaction_enabled request delta
            (parents_for request.parent_commit_ids (head_of delta s)) in
        append c.commit_id c.parent_commit_ids s.dag ≡ ok dag
        → contains_key c.commit_id s.store.commits ≡ false
        → p.decode_commit (p.encode_commit c) ≡ some c
        → let (result, after) = publish_delta_inner p mpsc version request s in
          (result
            ≡ ok (record {
              delta_id = delta.delta_id;
              commit_id = c.commit_id;
              accepted = true;
              persisted = true;
              warning = "";
              redaction_report = some (redacted p s.config.redaction_enabled delta.payload).1;
            }))
          × ((get_commit p c.commit_id after.store).0 ≡ ok (some c))
          × ((get_head delta.run_id delta.thread_id delta.agent_id delta.channel after.store).0
              ≡ ok (some c.commit_id))
          × (after.dag ≡ dag)
          × (c.state_delta ≡ some (redacted p s.config.redaction_enabled delta.payload).0)
  unfolding from_delta
  publish_delta_inner-stores request delta dag s h given complete durable allowed small accepted
        fresh codec =
      let (payload, report) = redacted p s.config.redaction_enabled delta.payload in
      let c =
        commit_for p version s.config.redaction_enabled request delta
          (parents_for request.parent_commit_ids (head_of delta s)) in
      let (done, healthy, graph, table, heads) =
        commit_delta_healthy p mpsc version (record delta { payload = some payload }) payload report
          request.parent_commit_ids
          (record {
            objective = request.objective;
            tool_calls = [];
            tool_results = [];
            artifact_refs = [];
            external_side_effects = [];
            sdk_name = "nexusd";
            sdk_version = version;
          })
          dag s h accepted in
      rw (publish_delta_inner-finish request delta s given complete durable allowed small) (
        rw done (
          refl,
          get_commit-written p c s.store _ healthy table fresh codec,
          head_written delta.run_id delta.thread_id delta.agent_id delta.channel c.commit_id
              (write_commit p c s.store) _ (unfold write_commit in h) healthy heads,
          graph,
          refl,
        ))
