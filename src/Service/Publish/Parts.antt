-- ===== src/Service/Publish/Parts.antt =====
-- The steps of `publish_delta_inner` of daemon/src/grpc/service.rs, when they are granted and nothing fails.
use attow_nexus.Prelude.Exec.{pure, bail}
use attow_nexus.Prelude.{
  String, ◌<>◌, ◌≡◌, refl, Bool, true, false, Option, none, some, List, [], ◌∷◌, ltb, length,
  if◌then◌else◌, lookup, or_nil, Result, ok,
}
use attow_nexus.Platform.{Platform}
use attow_nexus.Proto.{Payload, RedactionReport, Commit}
use attow_nexus.Proto.Messages.{StateDelta, PublishDeltaRequest}
use attow_nexus.Auth.{is_allowed}
use attow_nexus.Dag.{DagIndex, append}
use attow_nexus.Bus.State.{Mpsc}
use attow_nexus.Bus.Calls.{broadcast}
use attow_nexus.Ledger.Commit.{CommitExtras, from_delta}
use attow_nexus.Ledger.Store.Calls.{write_commit}
use attow_nexus.Ledger.Store.{head_key}
use attow_nexus.Ledger.Store.Rows.{HeadRow}
use attow_nexus.Ledger.Store.Heads.{get_head, write_head}
use attow_nexus.Ledger.Store.Laws.{disk_healthy}
use attow_nexus.Service.State.{App}
use attow_nexus.Service.Commits.{
  complete_payload, redact_if, prepare_payload, ensure_channel_permission, resolve_parents,
}
use attow_nexus.Service.Commits.Persist.{persisted, persist_commit_healthy}
use attow_nexus.Service.Commits.Inspect.{inspect_loop-IsSettled}
use attow_nexus.Service.Publish.{commit_delta}

-- the payload as it is stored, with the report
abbrev pub redacted : Platform → Bool → Option Payload → Payload × RedactionReport
redacted p enabled payload = redact_if p enabled (complete_payload p payload)

-- The commit of a publication: the delta with the redacted payload, its parents, and the extras of the
-- request.
abbrev pub commit_for :
    Platform → String → Bool → PublishDeltaRequest → StateDelta → List String → Commit
commit_for p version enabled request delta parents =
    let (payload, report) = redacted p enabled delta.payload in
    from_delta p (record delta { payload = some payload }) parents payload report
      (record {
        objective = request.objective;
        tool_calls = [];
        tool_results = [];
        artifact_refs = [];
        external_side_effects = [];
        sdk_name = "nexusd";
        sdk_version = version;
      })

-- the parents that are named, or else the head
abbrev pub parents_for : List String → Option HeadRow → List String
parents_for [] none = []
parents_for [] (some head) = head.commit_id ∷ []
parents_for (parent ∷ rest) head = parent ∷ rest

abbrev pub head_of : {Chan : Type 0} → StateDelta → App Chan → Option HeadRow
head_of delta s =
    lookup (head_key delta.run_id delta.thread_id delta.agent_id delta.channel) s.store.heads

module _ (p : Platform) {Chan : Type 0} where
  pub ensure_channel_permission_ok :
      (agent required : String) (s : App Chan)
      → is_allowed s.config (or_nil (lookup agent s.grants)) required ≡ true
      → ensure_channel_permission p agent required s ≡ (ok tt, s)
  unfolding ensure_channel_permission
  ensure_channel_permission_ok agent required s allowed = by_auth s.config.require_auth
    where
      by_auth :
          (auth : Bool)
          → (if auth
              then (if is_allowed s.config (or_nil (lookup agent s.grants)) required
                  then pure tt s
                  else bail ("permission denied for " <> required) s)
              else pure tt s)
            ≡ (ok tt, s)
      by_auth true = rw allowed refl
      by_auth false = refl

  pub prepare_payload_inline :
      (found : Option Payload) (s : App Chan)
      → ltb s.config.max_inline_payload_bytes
          (length (redacted p s.config.redaction_enabled found).0.content)
        ≡ false
      → let (payload, report) = redacted p s.config.redaction_enabled found in
        prepare_payload p found s ≡ (ok (payload, report, []), s)
  unfolding prepare_payload
  prepare_payload_inline found s small = rw small refl

  pub resolve_parents_healthy :
      (explicit : List String) (delta : StateDelta) (s : App Chan)
      → s.store.faults ≡ []
      → resolve_parents p delta explicit s ≡ (ok (parents_for explicit (head_of delta s)), s)
  unfolding resolve_parents get_head
  resolve_parents_healthy (parent ∷ rest) delta s h = refl
  resolve_parents_healthy [] delta s h = rw (disk_healthy s.store h) (by_head (head_of delta s))
    where
      by_head :
          (found : Option HeadRow)
          → (◌≡◌) {A = Result (List String) × App Chan}
              (
                ok
                    (elim (elim found as (λ _. Option String) [
                      | none ↦ none
                      | some head ↦ some head.commit_id
                    ])
                      as (λ _. List String) [ none ↦ [] | some id ↦ id ∷ [] ]),
                s,
              )
              (ok (parents_for [] found), s)
      by_head none = refl
      by_head (some head) = refl

  module _ (mpsc : Mpsc Chan) (version : String) where
    -- the end of a publication that the graph accepts
    pub commit_delta_healthy :
        (delta : StateDelta) (payload : Payload) (report : RedactionReport) (explicit : List String)
        (extras : CommitExtras) (dag : DagIndex) (s : App Chan)
        → s.store.faults ≡ []
        → let c =
            from_delta p delta (parents_for explicit (head_of delta s)) payload report extras in
          append c.commit_id c.parent_commit_ids s.dag ≡ ok dag
          → let after = commit_delta p mpsc version delta payload report explicit extras s in
            (after.0 ≡ ok c)
            × (after.1.store.faults ≡ [])
            × (after.1.dag ≡ dag)
            × (after.1.store.commits ≡ (write_commit p c s.store).commits)
            × (after.1.store.heads
                ≡ (write_head c.run_id c.thread_id c.agent_id c.channel c.commit_id
                    (write_commit p c s.store)).heads)
    unfolding commit_delta write_head write_commit
    commit_delta_healthy delta payload report explicit extras dag s h accepted =
        let c = from_delta p delta (parents_for explicit (head_of delta s)) payload report extras in
        let t : App Chan = record (persisted p c dag s) {
          bus = broadcast mpsc delta c.commit_id (persisted p c dag s).bus;
        } in
        let (done, healthy, graph, table, heads) = inspect_loop-IsSettled p mpsc c t h in
        rw (resolve_parents_healthy explicit delta s h) (
          rw (persist_commit_healthy p c dag s h accepted)
            (rw done (refl, healthy, graph, table, heads)))
