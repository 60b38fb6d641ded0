-- ===== src/Startup/Stored.antt =====
-- On `list_all_commits` and `from_commits` together: the index has the ids of the table of commits.
use attow_nexus.Prelude.{
  String, ◌≡◌, refl, sym, ◌∙◌, Bool, Option, true, false, ◌||◌, none, some, List, [], ◌∷◌, contains,
  lookup, contains_key, contains_key-eq-true, ok, arith,
}
use attow_nexus.Platform.{Platform}
use attow_nexus.Proto.{Commit}
use attow_nexus.Dag.{DagIndex, append, append_all, from_commits}
use attow_nexus.Dag.Startup.{contains_key-append, >>=-eq-ok}
use attow_nexus.Ledger.Replay.History.{ids, IsUnique}
use attow_nexus.Ledger.Store.Rows.{CommitRow, Store}
use attow_nexus.Ledger.Store.Calls.{selects, list_all_commits}
use attow_nexus.Ledger.Store.Laws.{IsReadable}
use attow_nexus.Ledger.Store.EachRow.{names}
use attow_nexus.Ledger.Store.Listing.{chosen, is_selected, list_commits-view}

contains_key-append_all :
    (cs : List Commit) (d e : DagIndex) (id : String)
    → append_all cs d ≡ ok e
    → contains_key id e.parents ≡ (contains id (ids cs) || contains_key id d.parents)
unfolding append_all contains
contains_key-append_all [] d e id h = let same : d ≡ e = cc in rw same refl
contains_key-append_all (c ∷ cs) d e id h =
    let (d', first, rest) =
      >>=-eq-ok (append c.commit_id c.parent_commit_ids d) (append_all cs) e h in
    ground (
      arith,
      contains_key-append_all cs d' e id rest,
      contains_key-append c.commit_id id c.parent_commit_ids d d' first,
    )

pub contains_key-from_commits :
    (cs : List Commit) (d : DagIndex) (id : String)
    → from_commits cs ≡ ok d
    → contains_key id d.parents ≡ contains id (ids cs)
unfolding from_commits contains_key
contains_key-from_commits cs d id h = ground (arith, contains_key-append_all cs _ d id h)

module _ (p : Platform) where
  -- all commits are listed, and nothing else
  pub list_all_commits-ids :
      (s : Store)
      → IsReadable p s
      → IsUnique (names s.commits)
      → (cs : List Commit) × (list_all_commits p s ≡ (ok cs, s))
        × ((id : String) → contains id (ids cs) ≡ contains_key id s.commits)
  unfolding list_all_commits selects
  list_all_commits-ids s r u =
      let (cs, listed, held, which) = list_commits-view p none none none s r u in
      (
        cs,
        listed,
        λ id.
            which id
            ∙ every (lookup id s.commits) (r.decodes id)
            ∙ sym (contains_key-eq-true id s.commits),
      )
    where
      every :
          {id : String} (found : Option CommitRow)
          → ((row : CommitRow)
              → found ≡ some row
              → (c : Commit) × (p.decode_commit row.proto ≡ some c) × (c.commit_id ≡ id))
          → chosen
              (is_selected none none none)
              (elim found [ none ↦ none | some row ↦ p.decode_commit row.proto ])
            ≡ elim found as (λ _. Bool) [ none ↦ false | some row ↦ true ]
      every none h = refl
      every (some row) h = rw ((h row refl).1) refl
