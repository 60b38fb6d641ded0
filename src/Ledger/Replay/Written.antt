-- ===== src/Ledger/Replay/Written.antt =====
-- On the rows of the table of commits as a graph: what a new row adds to it.
use attow_nexus.Prelude.{
  String, ◌≡◌, refl, sym, ◌∙◌, ◌⊎◌, inl, inr, Bool, true, false, Option, none, some, List, [], ◌∷◌,
  ◌==◌, eq_iff, if◌then◌else◌, lookup, contains_key, or_nil, Assoc, arith, Bool-cases,
}
use attow_nexus.Platform.{Platform}
use attow_nexus.Proto.{Commit}
use attow_nexus.Dag.{parents_of}
use attow_nexus.Ledger.Store.Rows.{CommitRow, Store}
use attow_nexus.Ledger.Store.Calls.{commit_row, write_commit}
use attow_nexus.Ledger.Store.Laws.{IsReadable, lookup-write_commit}
use attow_nexus.Ledger.Replay.History.{graph, parents_in}

-- what the store holds under an id, and its parents
abbrev pub row_parents : Platform → Option CommitRow → List String
row_parents p none = []
row_parents p (some row) = parents_in (p.decode_commit row.proto)

-- What is decoded has the id and the parents of what was encoded.
pub record IsParentCodec (p : Platform) : Type 0 where
  pub keeps :
      (c : Commit)
      → (d : Commit) × (p.decode_commit (p.encode_commit c) ≡ some d)
        × (d.commit_id ≡ c.commit_id)
        × (d.parent_commit_ids ≡ c.parent_commit_ids)

pub parents_of-graph :
    (p : Platform) (rows : Assoc CommitRow) (id : String)
    → parents_of (graph p rows) id ≡ row_parents p (lookup id rows)
unfolding graph lookup or_nil
parents_of-graph p [] id = refl
parents_of-graph p ((j, row) ∷ rows) id = elim (Bool-cases (j == id)) [
  | inl same ↦ rw same refl
  | inr other ↦ rw other (parents_of-graph p rows id)
]

module _ (p : Platform) (codec : IsParentCodec p) where
  -- the parents in the rows after a commit is written
  pub written_row :
      (c : Commit) (s : Store) (id : String)
      → (taken : Bool) → contains_key c.commit_id s.commits ≡ taken
      → row_parents p (lookup id (write_commit p c s).commits) ≡ (
          if taken
          then row_parents p (lookup id s.commits)
          else if c.commit_id == id
          then c.parent_commit_ids
          else row_parents p (lookup id s.commits))
  unfolding commit_row
  written_row c s id true e = rw (lookup-write_commit p c id s) (rw e refl)
  written_row c s id false e =
      rw (lookup-write_commit p c id s) (rw e (by_name (c.commit_id == id)))
    where
      by_name :
          (same : Bool)
          → row_parents p (if same then some (commit_row p c) else lookup id s.commits)
            ≡ (if same then c.parent_commit_ids else row_parents p (lookup id s.commits))
      by_name true = let (d, decoded, name, parents) = codec.keeps c in rw decoded parents
      by_name false = refl

  pub written_decodes :
      (c : Commit) (s : Store) (id : String) (row : CommitRow)
      → IsReadable p s
      → lookup id (write_commit p c s).commits ≡ some row
      → (d : Commit) × (p.decode_commit row.proto ≡ some d) × (d.commit_id ≡ id)
  unfolding commit_row
  written_decodes c s id row r found =
      by_test (contains_key c.commit_id s.commits) (Bool-cases (c.commit_id == id))
        (sym (lookup-write_commit p c id s) ∙ found)
    where
      by_test :
          (taken : Bool)
          → ((c.commit_id == id) ≡ true) ⊎ ((c.commit_id == id) ≡ false)
          → (if taken
              then lookup id s.commits
              else if c.commit_id == id
              then some (commit_row p c)
              else lookup id s.commits)
            ≡ some row
          → (d : Commit) × (p.decode_commit row.proto ≡ some d) × (d.commit_id ≡ id)
      by_test true which h = r.decodes id row h
      by_test false (inr other) h = r.decodes id row (ground (arith, other))
      by_test false (inl same) h =
          let (d, decoded, name, _) = codec.keeps c in
          let e : commit_row p c ≡ row = ground (arith, same) in
          (d, rw (← e) decoded, name ∙ (eq_iff c.commit_id id).0 same)
