-- ===== src/Ledger/Store/Recount.antt =====
-- On the upsert of `runs` in `append_commit` of daemon/src/ledger/sqlite_store.rs.
use attow_nexus.Prelude.{
  ◌+◌, ◌≡◌, refl, true, some, lookup, contains_key, contains_key-eq-true, lookup-update, eq_refl,
  arith, [],
}
use attow_nexus.Platform.{Platform}
use attow_nexus.Proto.{Commit}
use attow_nexus.Ledger.Store.{insert_or_ignore, count_run, seconds_of}
use attow_nexus.Ledger.Store.Rows.{RunRow, Store}
use attow_nexus.Ledger.Store.Calls.{append_commit, write_commit}
use attow_nexus.Ledger.Store.Laws.{append_commit_healthy}

module _ (p : Platform) where
  -- When no call fails, a commit whose id is stored leaves the table of commits as it was, but is counted
  -- once more in its run.
  pub append_commit_recounts :
      (c : Commit) (row : RunRow) (s : Store)
      → s.faults ≡ []
      → contains_key c.commit_id s.commits ≡ true
      → lookup c.run_id s.runs ≡ some row
      → ((append_commit p c s).1.commits ≡ s.commits)
        × (lookup c.run_id (append_commit p c s).1.runs
            ≡ some (record {
              last_commit_at = seconds_of c.wall_time;
              commit_count = row.commit_count + 1;
            }))
  unfolding write_commit insert_or_ignore count_run
  append_commit_recounts c row s healthy stored run =
      let known : contains_key c.run_id s.runs ≡ true =
        ground (arith, contains_key-eq-true c.run_id s.runs, run) in
      rw (append_commit_healthy p c s healthy) (
        rw stored refl,
        rw known (
            rw
              (
                lookup-update c.run_id c.run_id
                    (λ r. record {
                      last_commit_at = seconds_of c.wall_time;
                      commit_count = r.commit_count + 1;
                    })
                    s.runs,
                eq_refl c.run_id,
                run,
              )
              refl),
      )
