-- ===== src/Ledger/Rollback/Laws.antt =====
-- On `rollback` of daemon/src/ledger/rollback.rs.
use attow_nexus.Prelude.Exec.{modify, pure, ◌>>◌}
use attow_nexus.Prelude.{
  ◌≡◌, refl, ◌∙◌, ◌⊎◌, inl, inr, String, Bool, true, false, not, ◌&&◌, none, some, List, [], ◌∷◌,
  ◌++◌, ◌==◌, Result, ok, err, arith, Bool-cases, if◌then◌else◌, lookup, eq_refl,
}
use attow_nexus.Platform.{Platform}
use attow_nexus.Proto.{Commit}
use attow_nexus.Proto.Messages.{RollbackRequest}
use attow_nexus.Dag.{DagIndex, is_ancestor, ancestry}
use attow_nexus.Dag.Walk.{Reach}
use attow_nexus.Dag.Search.{is_ancestor-Reach}
use attow_nexus.Ledger.Store.{disk, head_key}
use attow_nexus.Ledger.Store.Rows.{Store}
use attow_nexus.Ledger.Store.Heads.{
  set_head, write_head, append_event, get_head, log_audit, log_rollback,
}
use attow_nexus.Ledger.Store.Laws.{
  disk_healthy, view, IsReadable, get_commit-view, get_head-set_head,
}
use attow_nexus.Ledger.Rollback.{collect_warnings, move_head, moved_text, rollback, warnings_of}

-- A rollback to a commit that the head does not descend from is refused without force, and touches
-- nothing.
pub rollback_refused :
    (p : Platform) (dag : DagIndex) (request : RollbackRequest) (s : Store)
    → request.force ≡ false
    → ¬ Reach dag.parents request.target_commit_id request.head_commit_id
    → rollback p dag request s ≡ (
      err "target commit is not an ancestor of the current head; use force to move the head anyway",
      s,
    )
unfolding rollback
rollback_refused p dag request s gentle apart =
    elim (Bool-cases (is_ancestor dag request.target_commit_id request.head_commit_id)) [
      | inl found ↦
          absurd (
            apart ((is_ancestor-Reach dag request.target_commit_id request.head_commit_id).0 found))
      | inr missed ↦ rw (gentle, missed) refl
    ]

get_head_healthy :
    (run thread agent channel : String) (s : Store)
    → s.faults ≡ []
    → (get_head run thread agent channel s).0
      ≡ ok (elim (lookup (head_key run thread agent channel) s.heads) [
        | none ↦ none
        | some head ↦ some head.commit_id
      ])
unfolding get_head
get_head_healthy run thread agent channel s h = rw (disk_healthy s h) refl

pub head_written :
    (run thread agent channel id : String) (s t : Store)
    → s.faults ≡ []
    → t.faults ≡ []
    → t.heads ≡ (write_head run thread agent channel id s).heads
    → (get_head run thread agent channel t).0 ≡ ok (some id)
head_written run thread agent channel id s t s_ok t_ok heads =
    let written = write_head run thread agent channel id s in
    let w_ok : written.faults ≡ [] = unfold write_head in s_ok in
    let now : (get_head run thread agent channel t).0
        ≡ (get_head run thread agent channel written).0 =
      rw
        (
          get_head_healthy run thread agent channel t t_ok,
          get_head_healthy run thread agent channel written w_ok,
          heads,
        )
        refl in
    let after : set_head run thread agent channel id s ≡ (ok tt, written) =
      unfold set_head in rw (disk_healthy s s_ok) refl in
    let read = get_head-set_head run thread agent channel run thread agent channel id s s_ok in
    now ∙ (rw (after, eq_refl (head_key run thread agent channel)) at read)

module _ (p : Platform) where
  -- the warnings of the commits before the target, as the view of the store has them
  unfoldable pub warnings_before : Store → String → List String → List String
  unfolding warnings_of
  warnings_before s target [] = []
  warnings_before s target (id ∷ rest) =
      if id == target then [] else warnings_of (view p s id) ++ warnings_before s target rest

  pub collect_warnings-view :
      (ids : List String) (target : String) (s : Store)
      → IsReadable p s
      → collect_warnings p ids target s ≡ (ok (warnings_before s target ids), s)
  unfolding collect_warnings warnings_before
  collect_warnings-view [] target s r = refl
  collect_warnings-view (id ∷ ids) target s r = elim (Bool-cases (id == target)) [
    | inl same ↦ rw same refl
    | inr other ↦
        rw other (rw (get_commit-view p id s r) (rw (collect_warnings-view ids target s r) refl))
  ]

  pub set_head_healthy :
      (run thread agent channel id : String) (s : Store)
      → s.faults ≡ []
      → set_head run thread agent channel id s ≡ (ok tt, write_head run thread agent channel id s)
  unfolding set_head
  set_head_healthy run thread agent channel id s h = rw (disk_healthy s h) refl

  pub append_event_healthy :
      (kind payload : String) (s : Store)
      → s.faults ≡ []
      → ((append_event p kind payload s).0 ≡ ok tt)
        × ((append_event p kind payload s).1.heads ≡ s.heads)
        × ((append_event p kind payload s).1.commits ≡ s.commits)
        × ((append_event p kind payload s).1.faults ≡ [])
  unfolding append_event disk
  append_event_healthy kind payload s h = rw h (by_test (kind == "rollback"))
    where
      by_test :
          (again : Bool)
          → let after : Result (Unit {0}) × Store =
              (if again then (disk >> modify (log_rollback p payload)) else pure tt)
                (log_audit p kind payload (record s { faults = [] })) in
            (after.0 ≡ ok tt)
            × (after.1.heads ≡ s.heads)
            × (after.1.commits ≡ s.commits)
            × (after.1.faults ≡ [])
      by_test true = (refl, refl, refl, refl)
      by_test false = (refl, refl, refl, refl)

  move_head_healthy :
      (head target : Commit) (warnings : List String) (s : Store)
      → s.faults ≡ []
      → let after = move_head p head target warnings s in
        (after.0 ≡ ok tt)
        × (after.1.heads
            ≡ (write_head head.run_id head.thread_id head.agent_id head.channel target.commit_id
                s).heads)
        × (after.1.commits ≡ s.commits)
        × (after.1.faults ≡ [])
  unfolding move_head
  move_head_healthy head target warnings s h =
      let t = write_head head.run_id head.thread_id head.agent_id head.channel target.commit_id s in
      let t_healthy : t.faults ≡ [] = unfold write_head in h in
      let (done, heads, commits, faults) =
        append_event_healthy "rollback" (moved_text p head target warnings) t t_healthy in
      rw
        (set_head_healthy head.run_id head.thread_id head.agent_id head.channel target.commit_id s
          h)
        (done, heads, commits ∙ (unfold write_head in refl), faults)

  rollback_runs :
      (dag : DagIndex) (request : RollbackRequest) (s : Store) (head target : Commit)
      → IsReadable p s
      → (request.force ≡ true) ⊎ Reach dag.parents request.target_commit_id request.head_commit_id
      → view p s request.head_commit_id ≡ some head
      → view p s request.target_commit_id ≡ some target
      → rollback p dag request s
        ≡ (move_head p head target
                (warnings_before s request.target_commit_id (ancestry dag request.head_commit_id))
              >> pure (record {
                moved = true;
                previous_head_commit_id = request.head_commit_id;
                new_head_commit_id = request.target_commit_id;
                warnings =
                    warnings_before s request.target_commit_id
                      (ancestry dag request.head_commit_id);
              }))
            s
  unfolding rollback
  rollback_runs dag request s head target r may h t = rw (passes may) (
      rw (get_commit-view p request.head_commit_id s r) (
        rw h (
          rw (get_commit-view p request.target_commit_id s r) (
            rw t (
              rw
                (collect_warnings-view (ancestry dag request.head_commit_id)
                  request.target_commit_id s r)
                refl)))))
    where
      passes :
          (request.force ≡ true) ⊎ Reach dag.parents request.target_commit_id request.head_commit_id
          → (not request.force
              && not (is_ancestor dag request.target_commit_id request.head_commit_id))
            ≡ false
      passes (inl force) = ground (arith, force)
      passes (inr walk) =
          ground
            (arith, (is_ancestor-Reach dag request.target_commit_id request.head_commit_id).1 walk)

  -- On a readable store that holds the head and the target, a rollback that is forced, or goes to an
  -- ancestor of the head, succeeds with the warnings found: the head of the head commit's run, thread, agent
  -- and channel is then the target, and no commit is changed.
  pub rollback_moves :
      (dag : DagIndex) (request : RollbackRequest) (s : Store) (head target : Commit)
      → IsReadable p s
      → (request.force ≡ true) ⊎ Reach dag.parents request.target_commit_id request.head_commit_id
      → view p s request.head_commit_id ≡ some head
      → view p s request.target_commit_id ≡ some target
      → ((rollback p dag request s).0
          ≡ ok (record {
            moved = true;
            previous_head_commit_id = request.head_commit_id;
            new_head_commit_id = request.target_commit_id;
            warnings =
                warnings_before s request.target_commit_id (ancestry dag request.head_commit_id);
          }))
        × ((get_head head.run_id head.thread_id head.agent_id head.channel
              (rollback p dag request s).1).0
            ≡ ok (some target.commit_id))
        × ((rollback p dag request s).1.commits ≡ s.commits)
  rollback_moves dag request s head target r may h t =
      let warnings =
        warnings_before s request.target_commit_id (ancestry dag request.head_commit_id) in
      let (done, heads, commits, faults) = move_head_healthy head target warnings s r.no_faults in
      rw (rollback_runs dag request s head target r may h t) (
        rw done (
          refl,
          head_written head.run_id head.thread_id head.agent_id head.channel target.commit_id s _
              r.no_faults faults heads,
          commits,
        ))
