-- ===== src/Service/Commits/Persist.antt =====
-- On `persist_commit` of daemon/src/grpc/service.rs: the graph and the database are written in turn.
use attow_nexus.Prelude.{
  ◌≡◌, refl, sym, ◌∙◌, ap, String, Bool, true, false, ◌||◌, ◌↔◌, if◌then◌else◌, Option, none, some,
  List, [], ◌∷◌, ◌==◌, eq_iff, eq_refl, arith, ok, err, contains_key, contains_key-eq-true, inc64,
}
use mathlib.Core.Bool.{false≢true}
use attow_nexus.Platform.{Platform}
use attow_nexus.Proto.{Commit}
use attow_nexus.Dag.{DagIndex, append}
use attow_nexus.Dag.Startup.{contains_key-append}
use attow_nexus.Ledger.Store.{disk}
use attow_nexus.Ledger.Store.Rows.{Store}
use attow_nexus.Ledger.Store.Calls.{append_commit, write_commit}
use attow_nexus.Ledger.Store.Heads.{get_head, set_head, write_head}
use attow_nexus.Ledger.Store.Laws.{disk_healthy, lookup-write_commit}
use attow_nexus.Ledger.Rollback.Laws.{head_written}
use attow_nexus.Service.State.{App}
use attow_nexus.Service.Commits.{append_dag, persist_commit}

-- The graph has the commits that are stored, and no others.
module _ {Chan : Type 0} where
  abbrev pub IsInSync : App Chan → Type 0
  IsInSync s = (id : String) → contains_key id s.dag.parents ≡ contains_key id s.store.commits

pub contains_key-write_commit :
    (p : Platform) (c : Commit) (id : String) (s : Store)
    → contains_key id (write_commit p c s).commits
      ≡ (c.commit_id == id || contains_key id s.commits)
contains_key-write_commit p c id s = ground (
  arith,
  contains_key-eq-true id (write_commit p c s).commits,
  contains_key-eq-true id s.commits,
  contains_key-eq-true c.commit_id s.commits,
  lookup-write_commit p c id s,
  eq_iff c.commit_id id,
)

module _ (p : Platform) {Chan : Type 0} where
  -- the state after a commit has gone through
  abbrev pub persisted : Commit → DagIndex → App Chan → App Chan
  persisted c dag s = record s {
    dag = dag;
    store =
        write_head c.run_id c.thread_id c.agent_id c.channel c.commit_id (write_commit p c s.store);
    bus = record s.bus {
      metrics = record s.bus.metrics { commits_total = inc64 s.bus.metrics.commits_total };
    };
  }

  append_dag_ok :
      (c : Commit) (dag : DagIndex) (s : App Chan)
      → append c.commit_id c.parent_commit_ids s.dag ≡ ok dag
      → append_dag p c s ≡ (ok tt, record s { dag = dag })
  unfolding append_dag
  append_dag_ok c dag s accepted = rw (append_dag, accepted) refl

  append_dag_err :
      (c : Commit) (e : String) (s : App Chan)
      → append c.commit_id c.parent_commit_ids s.dag ≡ err e
      → append_dag p c s ≡ (err e, s)
  unfolding append_dag
  append_dag_err c e s refused = rw (append_dag, refused) refl

  pub persist_commit_healthy :
      (c : Commit) (dag : DagIndex) (s : App Chan)
      → s.store.faults ≡ []
      → append c.commit_id c.parent_commit_ids s.dag ≡ ok dag
      → persist_commit p c s ≡ (ok tt, persisted c dag s)
  unfolding persist_commit append_commit set_head write_commit
  persist_commit_healthy c dag s h accepted =
      rw (append_dag_ok c dag s accepted)
        (rw (disk_healthy s.store h) (rw (disk_healthy (write_commit p c s.store) h) refl))

  in_step :
      (c : Commit) (dag : DagIndex) (s : App Chan)
      → IsInSync s
      → append c.commit_id c.parent_commit_ids s.dag ≡ ok dag
      → (id : String)
      → contains_key id dag.parents ≡ contains_key id (write_commit p c s.store).commits
  in_step c dag s sync accepted id =
      contains_key-append c.commit_id id c.parent_commit_ids s.dag dag accepted
      ∙ (ap (λ b. c.commit_id == id || b) (sync id)
          ∙ sym (contains_key-write_commit p c id s.store))

  -- When no call of the database fails, a commit that the graph accepts is persisted: it is in the graph
  -- and in the store, which stay in step, and it is the head of its run, thread, agent and channel.
  pub persist_commit-IsInSync :
      (c : Commit) (dag : DagIndex) (s : App Chan)
      → s.store.faults ≡ []
      → IsInSync s
      → append c.commit_id c.parent_commit_ids s.dag ≡ ok dag
      → let after = persist_commit p c s in
        (after.0 ≡ ok tt)
        × IsInSync after.1
        × (after.1.dag ≡ dag)
        × ((get_head c.run_id c.thread_id c.agent_id c.channel after.1.store).0
            ≡ ok (some c.commit_id))
  unfolding write_head write_commit
  persist_commit-IsInSync c dag s h sync accepted = rw (persist_commit_healthy c dag s h accepted) (
    refl,
    in_step c dag s sync accepted,
    refl,
    head_written c.run_id c.thread_id c.agent_id c.channel c.commit_id (write_commit p c s.store)
        (persisted c dag s).store h h refl,
  )

  -- A commit that the graph refuses is refused with its error, and nothing has changed.
  pub persist_commit_refused :
      (c : Commit) (e : String) (s : App Chan)
      → append c.commit_id c.parent_commit_ids s.dag ≡ err e
      → persist_commit p c s ≡ (err e, s)
  unfolding persist_commit
  persist_commit_refused c e s refused = rw (append_dag_err c e s refused) refl

  -- When one of the two database calls fails on a commit that is new and that the graph accepts, from a
  -- state in step, the call fails with that error and moves no head, and the graph keeps the commit. The
  -- store has it, and is in step with the graph, exactly when the commit was written and the failure is
  -- that of setting the head.
  pub persist_commit_diverges :
      (written : Bool) (c : Commit) (dag : DagIndex) (e : String) (faults : List (Option String))
      (s : App Chan)
      → s.store.faults ≡ (if written then none ∷ some e ∷ faults else some e ∷ faults)
      → IsInSync s
      → contains_key c.commit_id s.dag.parents ≡ false
      → append c.commit_id c.parent_commit_ids s.dag ≡ ok dag
      → let (result, after) = persist_commit p c s in
        (result ≡ err e)
        × (after.store.heads ≡ s.store.heads)
        × (contains_key c.commit_id after.dag.parents ≡ true)
        × (contains_key c.commit_id after.store.commits ≡ written)
        × (IsInSync after ↔ (written ≡ true))
  unfolding persist_commit append_commit set_head write_commit disk
  persist_commit_diverges false c dag e faults s h sync fresh accepted =
      rw (append_dag_ok c dag s accepted) (
        rw h (
          refl,
          refl,
          there,
          gone,
          (λ after. sym gone ∙ (sym (after c.commit_id) ∙ there), λ no id. absurd (false≢true no)),
        ))
    where
      there : contains_key c.commit_id dag.parents ≡ true
      there =
          contains_key-append c.commit_id c.commit_id c.parent_commit_ids s.dag dag accepted
          ∙ rw (eq_refl c.commit_id) refl

      gone : contains_key c.commit_id s.store.commits ≡ false
      gone = sym (sync c.commit_id) ∙ fresh
  persist_commit_diverges true c dag e faults s h sync fresh accepted =
      rw (append_dag_ok c dag s accepted) (
        rw h (
          refl,
          refl,
          contains_key-append c.commit_id c.commit_id c.parent_commit_ids s.dag dag accepted
              ∙ rw (eq_refl c.commit_id) refl,
          contains_key-write_commit p c c.commit_id s.store ∙ rw (eq_refl c.commit_id) refl,
          (λ _. refl, λ _. in_step c dag s sync accepted),
        ))
