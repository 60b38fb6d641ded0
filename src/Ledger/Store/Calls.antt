-- ===== src/Ledger/Store/Calls.antt =====
-- The methods of `impl Store for SqliteStore`, in the source's order, and util/compression.rs.
use attow_nexus.Prelude.Exec.{Exec, pure, lift, gets, modify, ◌>>=◌, ◌>>◌}
use attow_nexus.Prelude.{
  String, Bool, true, false, Option, none, some, List, [], ◌∷◌, ◌++◌, ◌==◌, any, filter, map, Assoc,
  lookup, insert, Result, ok, err, as_i64, sort,
}
use attow_nexus.Platform.{Platform}
use attow_nexus.Proto.{ToolCall, ToolResult, ExternalSideEffect, Commit}
use attow_nexus.Ledger.Store.{
  disk, insert_or_ignore, add_parents, count_run, add_channel, seconds_of,
}
use attow_nexus.Ledger.Store.Rows.{CommitRow, SideEffectRow, Store, commit_before}

-- INSERT OR REPLACE of each tool call
add_tool_calls : String → List ToolCall → Assoc (String × String) → Assoc (String × String)
add_tool_calls id [] table = table
add_tool_calls id (call ∷ rest) table =
    add_tool_calls id rest (insert call.tool_call_id (id, call.name) table)

has_error : ToolResult → Bool
has_error r = elim r.error [ none ↦ false | some e ↦ true ]

add_tool_results : String → List ToolResult → List (String × String × Bool)
unfolding has_error
add_tool_results id results = map (λ r. (r.tool_call_id, id, has_error r)) results

add_side_effects : String → List ExternalSideEffect → Assoc SideEffectRow → Assoc SideEffectRow
add_side_effects id [] table = table
add_side_effects id (effect ∷ rest) table = add_side_effects id rest (
    insert effect.side_effect_id
      (record {
        commit_id = id;
        kind = effect.kind;
        reversible = effect.reversible;
        compensating_action_available = effect.compensating_action_available;
      })
      table)

-- `option.map(|value| value == field).unwrap_or(true)`
unfoldable pub selects : Option String → String → Bool
selects none field = true
selects (some value) field = value == field

module _ (p : Platform) where
  unfoldable pub commit_row : Commit → CommitRow
  commit_row c = record {
    delta_id = c.delta_id;
    run_id = c.run_id;
    thread_id = c.thread_id;
    agent_id = c.agent_id;
    channel = c.channel;
    logical_clock = as_i64 c.logical_clock;
    wall_time_seconds = seconds_of c.wall_time;
    tags_json = p.tags_text c.tags;
    content_hash = c.content_hash;
    proto = p.encode_commit c;
  }

  -- What the transaction of `append_commit` writes.
  unfoldable pub write_commit : Commit → Store → Store
  unfolding commit_row add_tool_calls add_tool_results add_side_effects
  write_commit c s = record s {
    commits = insert_or_ignore c.commit_id (commit_row c) s.commits;
    commit_parents = add_parents c.commit_id c.parent_commit_ids s.commit_parents;
    runs = count_run c.run_id (seconds_of c.wall_time) s.runs;
    channels = add_channel c.channel s.channels;
    deltas =
        insert_or_ignore c.delta_id
          (record {
            commit_id = c.commit_id;
            run_id = c.run_id;
            agent_id = c.agent_id;
            channel = c.channel;
            durable = true;
            wall_time_seconds = seconds_of c.wall_time;
          })
          s.deltas;
    tool_calls = add_tool_calls c.commit_id c.tool_calls s.tool_calls;
    tool_results = s.tool_results ++ add_tool_results c.commit_id c.tool_results;
    side_effects = add_side_effects c.commit_id c.external_side_effects s.side_effects;
  }

  -- One transaction: any failure rolls all of it back, so it takes one entry of `faults`.
  unfoldable pub append_commit : Commit → Exec Store Unit
  append_commit c = do disk; modify (write_commit c)

  unfoldable pub decode_row : CommitRow → Result Commit
  decode_row row = elim (p.decode_commit row.proto) [ none ↦ err "decode commit" | some c ↦ ok c ]

  -- `bytes.map(decode_commit).transpose()`
  unfoldable pub decode_optional : Option CommitRow → Result (Option Commit)
  unfolding decode_row
  decode_optional none = ok none
  decode_optional (some row) = elim (decode_row row) [ ok c ↦ ok (some c) | err e ↦ err e ]

  unfoldable pub get_commit : String → Exec Store (Option Commit)
  get_commit id = do disk; row ← gets (λ s. lookup id s.commits); lift (decode_optional row)

  -- `collect::<Result<Vec<_>, _>>()`
  unfoldable pub decode_rows : List (String × CommitRow) → Result (List Commit)
  unfolding decode_row
  decode_rows [] = ok []
  decode_rows ((id, row) ∷ rows) = elim (decode_row row) [
    | ok c ↦ elim (decode_rows rows) [ ok cs ↦ ok (c ∷ cs) | err e ↦ err e ]
    | err e ↦ err e
  ]

  unfoldable pub list_commits :
      Option String → Option String → Option String → Exec Store (List Commit)
  list_commits run thread channel = do
    disk
    rows ← gets (λ s. sort commit_before s.commits)
    commits ← lift (decode_rows rows)
    pure (
        filter (λ c. selects channel c.channel)
          (filter (λ c. selects thread c.thread_id) (filter (λ c. selects run c.run_id) commits)))

  unfoldable pub list_all_commits : Exec Store (List Commit)
  list_all_commits = list_commits none none none

  unfoldable pub search_by_tag : String → Exec Store (List Commit)
  search_by_tag tag = do
    commits ← list_all_commits
    pure (filter (λ c. any (λ value. value == tag) c.tags) commits)
