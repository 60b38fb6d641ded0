-- ===== src/Service/Publish/Answered.antt =====
-- On `publish_delta_inner` of daemon/src/grpc/service.rs: what a publication that succeeds has answered.
use attow_nexus.Prelude.Exec.{Exec, ◌>>=◌, continue, pure}
use attow_nexus.Prelude.{
  String, ◌≡◌, refl, ◌∙◌, sym, ap, subst, ◌⊎◌, inl, inr, Bool, true, false, ◌&&◌, not, Option, none,
  some, List, [], Result, ok, err, ok_or, if◌then◌else◌, contains_key, eq_refl, arith,
}
use attow_nexus.Platform.{Platform}
use attow_nexus.Proto.{Payload, RedactionReport, Commit}
use attow_nexus.Proto.Messages.{StateDelta, PublishDeltaRequest, PublishDeltaResponse}
use attow_nexus.Auth.{channel_write}
use attow_nexus.Dag.{append}
use attow_nexus.Dag.Startup.{contains_key-append}
use attow_nexus.Bus.State.{Mpsc}
use attow_nexus.Ledger.Commit.{CommitExtras, from_delta}
use attow_nexus.Service.State.{App}
use attow_nexus.Service.Commits.{prepare_payload, ensure_channel_permission}
use attow_nexus.Service.Commits.Normalize.{normalize_delta-IsHarmless}
use attow_nexus.Service.Commits.Persist.{persist_commit_refused, contains_key-write_commit}
use attow_nexus.Service.Publish.{commit_delta, publish_ephemeral, publish_delta_inner}
use attow_nexus.Service.Publish.Parts.{
  parents_for, head_of, resolve_parents_healthy, commit_delta_healthy,
}
use attow_nexus.Service.Steady.{IsQuiet}
use attow_nexus.Service.Steady.Parts.{ensure_channel_permission-IsQuiet, prepare_payload-IsQuiet}

module _ {Chan : Type 0} where
  -- the graph and the table of commits both hold the id
  abbrev pub IsStored : String → App Chan → Type 0
  IsStored id s = (contains_key id s.dag.parents ≡ true) × (contains_key id s.store.commits ≡ true)

  -- What the answer to a publication says: its commit is stored; only a delta that is not durable may
  -- have none.
  abbrev pub IsAnswered : PublishDeltaRequest → String → App Chan → Type 0
  IsAnswered request commit_id s =
      ((commit_id ≡ "") × ((d : StateDelta) × (request.delta ≡ some d) × (d.durable ≡ false)))
      ⊎ IsStored commit_id s

  module _ {A : Type 0} (Q : A → App Chan → Type 0) where
    -- what is asked of a success; an error owes nothing
    abbrev pub Holds : Result A × App Chan → Type 0
    Holds (ok a, s) = Q a s
    Holds (err e, s) = Unit

    -- the answer of a method has the property, when no call of the database fails
    abbrev pub Ensures : Exec (App Chan) A → Type 0
    Ensures m = (s : App Chan) → s.store.faults ≡ [] → Holds (m s)

    Holds-ok : (a : A) (x : Result A × App Chan) → x.0 ≡ ok a → Q a x.1 → Holds x
    Holds-ok a x e q = subst (λ r. Holds (r, x.1)) (sym e) q

    Holds-continue :
        {B : Type 0} (r : Result B) (f : B → Exec (App Chan) A) (s : App Chan)
        → ((b : B) → r ≡ ok b → Holds (f b s))
        → Holds (continue r f s)
    Holds-continue (ok b) f s h = h b refl
    Holds-continue (err e) f s h = tt

    Ensures-after :
        {B : Type 0} (m : Exec (App Chan) B) (f : B → Exec (App Chan) A)
        → IsQuiet m
        → ((b : B) → Ensures (f b))
        → Ensures (m >>= f)
    Ensures-after m f quiet h s healthy =
        Holds-continue (m s).0 f (m s).1 (λ b _. h b (m s).1 (quiet s healthy).0)

    Ensures-if :
        (b : Bool) (m n : Exec (App Chan) A) (s : App Chan)
        → (b ≡ true → Holds (m s))
        → (b ≡ false → Holds (n s))
        → Holds ((if b then m else n) s)
    Ensures-if true m n s left right = left refl
    Ensures-if false m n s left right = right refl

  Holds-map :
      {A B : Type 0} (Q : A → App Chan → Type 0) (R : B → App Chan → Type 0) (f : A → B)
      (x : Result A × App Chan)
      → ((a : A) (s : App Chan) → Q a s → R (f a) s)
      → Holds Q x
      → Holds R (continue x.0 (λ a. pure (f a)) x.1)
  Holds-map Q R f (ok a, s) h q = h a s q
  Holds-map Q R f (err e, s) h q = tt

ok_or-eq-ok :
    {A : Type 0} (found : Option A) (message : String) (a : A)
    → ok_or found message ≡ ok a
    → found ≡ some a
ok_or-eq-ok none message a h = cc
ok_or-eq-ok (some b) message a h = cc

module _ (p : Platform) {Chan : Type 0} (mpsc : Mpsc Chan) (version : String) where
  commit_delta-Ensures :
      (delta : StateDelta) (payload : Payload) (report : RedactionReport) (explicit : List String)
      (extras : CommitExtras)
      → Ensures
          (λ (c : Commit) t. IsStored c.commit_id t)
          (commit_delta p mpsc version delta payload report explicit extras)
  unfolding commit_delta
  commit_delta-Ensures delta payload report explicit extras s h =
      by_append (append c.commit_id c.parent_commit_ids s.dag) refl
    where
      c : Commit
      c = from_delta p delta (parents_for explicit (head_of delta s)) payload report extras

      by_append :
          (r : Result _)
          → append c.commit_id c.parent_commit_ids s.dag ≡ r
          → Holds
              (λ (c : Commit) t. IsStored c.commit_id t)
              (commit_delta p mpsc version delta payload report explicit extras s)
      by_append (err e) refused =
          rw (resolve_parents_healthy p explicit delta s h)
            (rw (persist_commit_refused p c e s refused) tt)
      by_append (ok dag) accepted =
          let (done, healthy, graph, table, heads) =
            commit_delta_healthy p mpsc version delta payload report explicit extras dag s h
              accepted in
          Holds-ok (λ (c : Commit) t. IsStored c.commit_id t) c
            (commit_delta p mpsc version delta payload report explicit extras s) done
            (
              ap (λ d. contains_key c.commit_id d.parents) graph
                  ∙ contains_key-append c.commit_id c.commit_id c.parent_commit_ids s.dag dag
                      accepted
                  ∙ rw (eq_refl c.commit_id) refl,
              ap (contains_key c.commit_id) table
                  ∙ contains_key-write_commit p c c.commit_id s.store
                  ∙ rw (eq_refl c.commit_id) refl,
            )

  -- While no database call fails, a publication that succeeds answers with the id of a commit that the
  -- graph and the store hold, or with no id when the delta is not durable.
  pub publish_delta_inner-Ensures :
      (request : PublishDeltaRequest)
      → Ensures
          (λ r t. IsAnswered request r.commit_id t)
          (publish_delta_inner p mpsc version request)
  unfolding publish_delta_inner publish_ephemeral
  publish_delta_inner-Ensures request s h =
      Holds-continue Q (ok_or request.delta "PublishDeltaRequest.delta is required") _ s
        (λ raw found.
          let given : request.delta ≡ some raw = ok_or-eq-ok request.delta _ raw found in
          let (delta, n, normalized, agent, channel, durable) =
            normalize_delta-IsHarmless p raw s in
          rw normalized (
            Ensures-after Q
              (ensure_channel_permission p delta.agent_id (channel_write delta.channel)) _
              (ensure_channel_permission-IsQuiet p delta.agent_id (channel_write delta.channel))
              (λ _.
                Ensures-after Q (prepare_payload p delta.payload) _
                  (prepare_payload-IsQuiet p delta.payload)
                  (λ stored t g.
                    let sent : StateDelta = record delta { payload = some stored.0 } in
                    Ensures-if Q (not delta.durable && not t.config.persist_ephemeral)
                      (publish_ephemeral p mpsc version sent stored.1) _ t
                      (λ brief. inl (refl, (raw, given, sym durable ∙ ground (arith, brief))))
                      (λ _.
                        Holds-map (λ (c : Commit) u. IsStored c.commit_id u) Q _
                          (commit_delta p mpsc version sent stored.0 stored.1
                            request.parent_commit_ids
                            (record {
                              objective = request.objective;
                              tool_calls = [];
                              tool_results = [];
                              artifact_refs = stored.2;
                              external_side_effects = [];
                              sdk_name = "nexusd";
                              sdk_version = version;
                            })
                            t)
                          (λ c u held. inr held)
                          (commit_delta-Ensures sent stored.0 stored.1 request.parent_commit_ids _ t
                            g))))
              (record s { ticks = n }) h))
    where
      Q : PublishDeltaResponse → App Chan → Type 0
      Q r t = IsAnswered request r.commit_id t
