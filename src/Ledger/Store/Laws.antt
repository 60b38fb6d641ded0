-- ===== src/Ledger/Store/Laws.antt =====
-- On the tables of commits and heads of daemon/src/ledger/sqlite_store.rs: what the store holds under an
-- id, as a function of the tables.
use attow_nexus.Prelude.{
  ◌≡◌, refl, sym, ◌∙◌, String, Bool, true, false, Option, none, some, [], ◌==◌, eq_iff, eq_refl, ap,
  if◌then◌else◌, lookup, contains_key, lookup-insert, Result, ok, arith, Bool-cases, ◌⊎◌, inl, inr,
}
use attow_nexus.Platform.{Platform}
use attow_nexus.Proto.{Commit}
use attow_nexus.Ledger.Store.{disk, insert_or_ignore, head_key}
use attow_nexus.Ledger.Store.Rows.{CommitRow, HeadRow, Store}
use attow_nexus.Ledger.Store.Calls.{
  commit_row, write_commit, append_commit, decode_row, decode_optional, get_commit,
}
use attow_nexus.Ledger.Store.Heads.{get_head, write_head, set_head}

-- A call succeeds when no fault is left.
pub disk_healthy : (s : Store) → s.faults ≡ [] → disk s ≡ (ok tt, s)
unfolding disk
disk_healthy s h = rw h refl

module _ (p : Platform) where
  -- the commit that a store holds under an id
  abbrev pub view : Store → String → Option Commit
  view s id = elim (lookup id s.commits) [ none ↦ none | some row ↦ p.decode_commit row.proto ]

  -- No call fails, and every row of the table of commits decodes, to a commit of its id.
  pub record IsReadable (s : Store) : Type 0 where
    pub no_faults : s.faults ≡ []
    pub decodes :
        (id : String) (row : CommitRow)
        → lookup id s.commits ≡ some row
        → (c : Commit) × (p.decode_commit row.proto ≡ some c) × (c.commit_id ≡ id)

  -- On a readable store a commit is read as the view says, and the store is left as it was.
  pub get_commit-view :
      (id : String) (s : Store) → IsReadable s → get_commit p id s ≡ (ok (view s id), s)
  unfolding get_commit decode_optional decode_row
  get_commit-view id s r =
      rw (disk_healthy s r.no_faults) (by_row (lookup id s.commits) (r.decodes id))
    where
      by_row :
          (found : Option CommitRow)
          → ((row : CommitRow)
              → found ≡ some row
              → (c : Commit) × (p.decode_commit row.proto ≡ some c) × (c.commit_id ≡ id))
          → (◌≡◌) {A = Result (Option Commit) × Store}
              (decode_optional p found, s)
              (ok (elim found [ none ↦ none | some row ↦ p.decode_commit row.proto ]), s)
      by_row none h = refl
      by_row (some row) h = rw (decode_optional, decode_row, (h row refl).1) refl

  pub append_commit_healthy :
      (c : Commit) (s : Store) → s.faults ≡ [] → append_commit p c s ≡ (ok tt, write_commit p c s)
  unfolding append_commit
  append_commit_healthy c s h = rw (disk_healthy s h) refl

  pub lookup-write_commit :
      (c : Commit) (id : String) (s : Store)
      → lookup id (write_commit p c s).commits ≡ (
          if contains_key c.commit_id s.commits
          then lookup id s.commits
          else if c.commit_id == id
          then some (commit_row p c)
          else lookup id s.commits)
  unfolding write_commit insert_or_ignore
  lookup-write_commit c id s =
      ground (arith, lookup-insert c.commit_id id (commit_row p c) s.commits)

  -- a store whose commits are those of a store that a new commit was written to reads it back
  pub get_commit-written :
      (c : Commit) (s t : Store)
      → t.faults ≡ []
      → t.commits ≡ (write_commit p c s).commits
      → contains_key c.commit_id s.commits ≡ false
      → p.decode_commit (p.encode_commit c) ≡ some c
      → (get_commit p c.commit_id t).0 ≡ ok (some c)
  unfolding get_commit commit_row decode_optional decode_row
  get_commit-written c s t healthy table fresh codec =
      let found : lookup c.commit_id t.commits ≡ some (commit_row p c) =
        ap (lookup c.commit_id) table
        ∙ lookup-write_commit c c.commit_id s
        ∙ rw fresh (rw (eq_refl c.commit_id) refl) in
      rw (disk_healthy t healthy) (rw found (rw (decode_optional, decode_row, codec) refl))

  -- When no call fails and the commit survives encoding, a new commit can be read under its id; under an id
  -- that was taken, and under every other id, the commit that is read stays as it was.
  pub append_commit-view :
      (c : Commit) (id : String) (s : Store)
      → p.decode_commit (p.encode_commit c) ≡ some c
      → s.faults ≡ []
      → view (append_commit p c s).1 id ≡ (
          if contains_key c.commit_id s.commits
          then view s id
          else if c.commit_id == id
          then some c
          else view s id)
  unfolding commit_row
  append_commit-view c id s codec healthy =
      rw (append_commit_healthy c s healthy, view, lookup-write_commit c id s)
        (by_test (contains_key c.commit_id s.commits) (c.commit_id == id))
    where
      by_test :
          (taken same : Bool)
          → elim (if taken
              then lookup id s.commits
              else if same
              then some (commit_row p c)
              else lookup id s.commits) [ none ↦ none | some row ↦ p.decode_commit row.proto ]
            ≡ (if taken then view s id else if same then some c else view s id)
      by_test true same = refl
      by_test false true = codec
      by_test false false = refl

  -- A readable store stays readable when a commit that survives encoding is appended.
  pub append_commit-IsReadable :
      (c : Commit) (s : Store)
      → p.decode_commit (p.encode_commit c) ≡ some c
      → IsReadable s
      → IsReadable (append_commit p c s).1
  append_commit-IsReadable c s codec r = rw (append_commit_healthy c s r.no_faults) (record {
    no_faults = unfold write_commit in r.no_faults;
    decodes = λ id row found.
        by_test id row (contains_key c.commit_id s.commits) (Bool-cases (c.commit_id == id))
          (sym (lookup-write_commit c id s) ∙ found);
  })
    where
      by_test :
          (id : String) (row : CommitRow) (taken : Bool)
          → ((c.commit_id == id) ≡ true) ⊎ ((c.commit_id == id) ≡ false)
          → (if taken
              then lookup id s.commits
              else if c.commit_id == id
              then some (commit_row p c)
              else lookup id s.commits)
            ≡ some row
          → (d : Commit) × (p.decode_commit row.proto ≡ some d) × (d.commit_id ≡ id)
      by_test id row true same h = r.decodes id row h
      by_test id row false (inr other) h = r.decodes id row (ground (arith, other))
      by_test id row false (inl same) h =
          let e : commit_row p c ≡ row = ground (arith, same) in
          (c, rw (← e) (unfold commit_row in codec), (eq_iff c.commit_id id).0 same)

abbrev head_row : String → String → String → String → String → Option HeadRow → HeadRow
head_row run thread agent channel id none = record {
  run_id = run;
  thread_id = thread;
  agent_id = agent;
  channel = channel;
  commit_id = id;
}
head_row run thread agent channel id (some old) = record old { commit_id = id }

-- When no call fails, the head that was set is read back under its run, thread, agent and channel, and
-- under no other key.
pub get_head-set_head :
    (run thread agent channel run' thread' agent' channel' id : String) (s : Store)
    → s.faults ≡ []
    → (get_head run' thread' agent' channel' (set_head run thread agent channel id s).1).0 ≡ (
        if head_key run thread agent channel == head_key run' thread' agent' channel'
        then ok (some id)
        else (get_head run' thread' agent' channel' s).0)
unfolding get_head set_head write_head
get_head-set_head run thread agent channel run' thread' agent' channel' id s healthy =
    let key = head_key run thread agent channel in
    let key' = head_key run' thread' agent' channel' in
    rw (disk_healthy s healthy, disk_healthy (write_head run thread agent channel id s) healthy)
      (rw
        (lookup-insert key key' (head_row run thread agent channel id (lookup key s.heads)) s.heads)
        (by_test (key == key') (lookup key s.heads) (lookup key' s.heads)))
  where
    by_test :
        (same : Bool) (old other : Option HeadRow)
        → (◌≡◌) {A = Result (Option String)}
            (ok (elim (if same then some (head_row run thread agent channel id old) else other) [
              | none ↦ none
              | some head ↦ some head.commit_id
            ]))
            (if same
              then ok (some id)
              else ok (elim other [ none ↦ none | some head ↦ some head.commit_id ]))
    by_test false old other = refl
    by_test true none other = refl
    by_test true (some row) other = refl
