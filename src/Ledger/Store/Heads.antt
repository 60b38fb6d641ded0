-- ===== src/Ledger/Store/Heads.antt =====
-- The methods of sqlite_store.rs on heads, runs and events.
use attow_nexus.Prelude.Exec.{Exec, pure, gets, modify, ◌>>=◌, ◌>>◌}
use attow_nexus.Prelude.{
  suc, String, Option, none, some, List, [], ◌∷◌, ◌++◌, ◌==◌, if◌then◌else◌, map, lookup, insert,
  pos, sort,
}
use attow_nexus.Platform.{Platform}
use attow_nexus.Proto.{RunSummary}
use attow_nexus.Ledger.Store.{disk, head_key}
use attow_nexus.Ledger.Store.Rows.{HeadRow, RunRow, Store, run_before}

run_summary : String × RunRow → RunSummary
run_summary (run, row) = record {
  run_id = run;
  commit_count = row.commit_count;
  last_commit_at = some (record { seconds = row.last_commit_at; nanos = pos 0 });
}

unfoldable pub list_runs : Exec Store (List RunSummary)
unfolding run_summary
list_runs = do disk; gets (λ s. map run_summary (sort run_before s.runs))

unfoldable pub get_head : String → String → String → String → Exec Store (Option String)
get_head run thread agent channel = do
  disk
  row ← gets (λ s. lookup (head_key run thread agent channel) s.heads)
  pure (elim row [ none ↦ none | some head ↦ some head.commit_id ])

-- The upsert of `heads` leaves the other columns of a present row.
unfoldable pub write_head : String → String → String → String → String → Store → Store
write_head run thread agent channel id s =
    let key = head_key run thread agent channel in
    let fresh : HeadRow = record {
      run_id = run;
      thread_id = thread;
      agent_id = agent;
      channel = channel;
      commit_id = id;
    } in
    record s {
      heads =
          insert key
            (elim (lookup key s.heads) [ none ↦ fresh | some old ↦ record old { commit_id = id } ])
            s.heads;
    }

unfoldable pub set_head : String → String → String → String → String → Exec Store Unit
set_head run thread agent channel id = do disk; modify (write_head run thread agent channel id)

module _ (p : Platform) where
  -- `millis()` is read for each row.
  pub log_audit : String → String → Store → Store
  log_audit kind payload s = record s {
    audit_events = s.audit_events ++ (kind, payload, p.millis s.ticks) ∷ [];
    ticks = suc s.ticks;
  }

  pub log_rollback : String → Store → Store
  log_rollback payload s = record s {
    rollback_events = s.rollback_events ++ (payload, p.millis s.ticks) ∷ [];
    ticks = suc s.ticks;
  }

  unfoldable pub append_event : String → String → Exec Store Unit
  unfolding log_audit log_rollback
  append_event kind payload = do
    disk
    modify (log_audit kind payload)
    if kind == "rollback" then (do disk; modify (log_rollback payload)) else pure tt
