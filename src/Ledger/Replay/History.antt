-- ===== src/Ledger/Replay/History.antt =====
-- On daemon/src/ledger/replay.rs: the parent graph that a store holds.
use attow_nexus.Prelude.{
  String, ◌≡◌, refl, inl, inr, true, false, Option, none, some, List, [], ◌∷◌, ◌++◌, map, ◌==◌,
  eq_iff, length, any, is_empty, contains, contains-nil, contains-append, Assoc, lookup,
  contains_key, contains_key-eq-true, or_nil, arith, Bool-cases, Option-cases,
}
use attow_nexus.Platform.{Platform}
use attow_nexus.Proto.{Commit}
use attow_nexus.Dag.{parents_of}
use attow_nexus.Dag.Walk.{IsParent, IsAcyclic}
use attow_nexus.Ledger.Store.Rows.{CommitRow, Store}
use attow_nexus.Ledger.Store.Laws.{view, IsReadable}

abbrev pub ids : List Commit → List String
ids = map (λ c. c.commit_id)

-- no id twice
abbrev pub IsUnique : List String → Type 0
IsUnique [] = Unit
IsUnique (x ∷ xs) = (contains x xs ≡ false) × IsUnique xs

pub IsUnique-last :
    (xs : List String) (x : String) → contains x xs ≡ false → IsUnique xs → IsUnique (xs ++ x ∷ [])
unfolding contains
IsUnique-last [] x new u = (refl, tt)
IsUnique-last (y ∷ xs) x new (fresh, u) = (
  ground (arith, contains-append y xs (x ∷ []), fresh, eq_iff x y, eq_iff y x),
  IsUnique-last xs x (ground arith) u,
)

pub any-contains :
    (id : String) (cs : List Commit) → any (λ e. e.commit_id == id) cs ≡ contains id (ids cs)
unfolding contains
any-contains id [] = refl
any-contains id (c ∷ cs) = ground (arith, any-contains id cs)

pub has_parent : (ps : List String) (y : String) → contains y ps ≡ true → is_empty ps ≡ false
has_parent [] y e = absurd (contains-nil y e)
has_parent (p ∷ ps) y e = refl

abbrev pub parents_in : Option Commit → List String
parents_in none = []
parents_in (some c) = c.parent_commit_ids

module _ (p : Platform) where
  -- the parent map that the table of commits holds
  unfoldable pub graph : Assoc CommitRow → Assoc (List String)
  graph [] = []
  graph ((id, row) ∷ rows) = (id, parents_in (p.decode_commit row.proto)) ∷ graph rows

  pub length-graph : (rows : Assoc CommitRow) → length (graph rows) ≡ length rows
  unfolding graph
  length-graph [] = refl
  length-graph ((id, row) ∷ rows) = omega (arith, length-graph rows)

  -- A store that can be read, whose commits form an acyclic graph that is closed under parents.
  pub record IsHistory (s : Store) : Type 0 where
    pub readable : IsReadable p s
    pub acyclic : IsAcyclic (graph s.commits)
    pub known : (x y : String) → IsParent (graph s.commits) y x → contains_key y s.commits ≡ true

  pub parents_of-graph :
      (rows : Assoc CommitRow) (id : String) (c : Commit)
      → elim (lookup id rows) [ none ↦ none | some row ↦ p.decode_commit row.proto ] ≡ some c
      → parents_of (graph rows) id ≡ c.parent_commit_ids
  unfolding graph lookup or_nil
  parents_of-graph [] id c h = cc
  parents_of-graph ((j, row) ∷ rows) id c h = elim (Bool-cases (j == id)) [
    | inl same ↦
        let e : p.decode_commit row.proto ≡ some c = ground (arith, same) in rw (same, e) refl
    | inr other ↦ rw other (parents_of-graph rows id c (ground (arith, other)))
  ]

  pub stored :
      (s : Store) (id : String)
      → IsReadable p s
      → contains_key id s.commits ≡ true
      → (c : Commit) × (view p s id ≡ some c) × (c.commit_id ≡ id)
  stored s id r h = elim (Option-cases (lookup id s.commits)) [
    | inl missing ↦ ground (arith, contains_key-eq-true id s.commits, missing)
    | inr (row, found) ↦
        let (c, decoded, name) = r.decodes id row found in (c, rw (view, found) decoded, name)
  ]
