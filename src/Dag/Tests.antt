-- ===== src/Dag/Tests.antt =====
-- Examples on a small graph: `a` is the root, `b` and `c` are its children, and `d` merges them.
use attow_nexus.Prelude.{
  String, ◌≡◌, refl, ◌↔◌, ◌≢◌, true, false, none, some, List, [], ◌∷◌, ok, err, contains, lookup,
  insert, contains_key, or_nil,
}
use mathlib.Core.Bool.{false≢true}
use attow_nexus.Proto.{Commit}
use attow_nexus.Tests.Data.{commit_of, dag}
use attow_nexus.Dag.{
  DagIndex, empty, parents_of, search, extend, edge_count, reachable_locked, check_parents,
  push_children, append, append_all, from_commits, is_ancestor, collect_each, collect_ancestry,
  ancestry, nearest_common_ancestor,
}
use attow_nexus.Dag.Walk.{IsAcyclic, IsParent, Reach}
use attow_nexus.Dag.Search.{is_ancestor-Reach}
use attow_nexus.Dag.Append.{
  IsWellFormed, append-IsWellFormed, append-is_ok, IsMirror, append-IsMirror,
}
use attow_nexus.Dag.Ancestry.{mem-ancestry}
use attow_nexus.Dag.Common.{
  ancestry_parents_first, nearest_common_ancestor_lem, nearest_common_ancestor-root,
}
use attow_nexus.Dag.Startup.{from_commits-IsWellFormed, from_commits_refuses}

abbrev three : List Commit
three = commit_of "a" [] ∷ commit_of "b" ("a" ∷ []) ∷ commit_of "c" ("a" ∷ []) ∷ []

abbrev dag3 : DagIndex
dag3 = record {
  parents = ("a", []) ∷ ("b", "a" ∷ []) ∷ ("c", "a" ∷ []) ∷ [];
  children = ("a", "b" ∷ "c" ∷ []) ∷ [];
}

abbrev dag4 : DagIndex
dag4 = record {
  parents = ("a", []) ∷ ("b", "a" ∷ []) ∷ ("c", "a" ∷ []) ∷ ("d", "b" ∷ "c" ∷ []) ∷ [];
  children = ("a", "b" ∷ "c" ∷ []) ∷ ("b", "d" ∷ []) ∷ ("c", "d" ∷ []) ∷ [];
}

three_load : from_commits three ≡ ok dag3
unfolding from_commits append_all append check_parents push_children contains contains_key
    reachable_locked search lookup insert or_nil extend edge_count
three_load = refl

four_append : append "d" ("b" ∷ "c" ∷ []) dag3 ≡ ok dag4
unfolding append check_parents push_children contains contains_key reachable_locked search lookup
    insert or_nil extend edge_count
four_append = refl

dag3-IsWellFormed : IsWellFormed dag3
dag3-IsWellFormed = from_commits-IsWellFormed three dag3 three_load

dag4-IsWellFormed : IsWellFormed dag4
dag4-IsWellFormed = append-IsWellFormed "d" ("b" ∷ "c" ∷ []) dag3 dag4 dag3-IsWellFormed four_append

dag4-ancestry : ancestry dag4 "d" ≡ "a" ∷ "b" ∷ "c" ∷ "d" ∷ []
unfolding ancestry collect_ancestry collect_each contains lookup or_nil
dag4-ancestry = refl

d_b_nearest : nearest_common_ancestor dag4 "d" "b" ≡ some "a"
unfolding nearest_common_ancestor ancestry collect_ancestry collect_each contains lookup or_nil
d_b_nearest = refl

is_ancestor-Reach_example : (is_ancestor dag4 "a" "d" ≡ true) ↔ Reach dag4.parents "a" "d"
is_ancestor-Reach_example = is_ancestor-Reach dag4 "a" "d"

append-IsWellFormed_example : IsWellFormed dag4
append-IsWellFormed_example =
    append-IsWellFormed "d" ("b" ∷ "c" ∷ []) dag3 dag4 dag3-IsWellFormed four_append

append-is_ok_example : ((e : DagIndex) × (append "d" ("b" ∷ "c" ∷ []) dag3 ≡ ok e)) ↔ (
    (◌≢◌ {A = String} "d" "")
    × (contains "d" ("b" ∷ "c" ∷ []) ≡ false)
    × ((p : String)
        → contains p ("b" ∷ "c" ∷ []) ≡ true
        → (contains_key p dag3.parents ≡ true) × (¬ Reach dag3.parents "d" p)))
append-is_ok_example = append-is_ok "d" ("b" ∷ "c" ∷ []) dag3

mem-ancestry_example : (contains "a" (ancestry dag4 "d") ≡ true) ↔ Reach dag4.parents "a" "d"
mem-ancestry_example = mem-ancestry dag4 "d" "a"

b-IsParent_of_d : IsParent dag4.parents "b" "d"
unfolding contains lookup or_nil
b-IsParent_of_d = refl

ancestry_parents_first_example : contains "b" ("a" ∷ "b" ∷ "c" ∷ []) ≡ true
ancestry_parents_first_example =
    ancestry_parents_first dag4 "d" "d" "b" ("a" ∷ "b" ∷ "c" ∷ []) [] dag4-IsWellFormed.acyclic
      dag4-ancestry b-IsParent_of_d

nearest_common_ancestor_lem_example :
    ((c : String)
      → nearest_common_ancestor dag4 "d" "b" ≡ some c
      → Reach dag4.parents c "d" × Reach dag4.parents c "b")
    × (nearest_common_ancestor dag4 "d" "b" ≡ none
        → (c : String) → Reach dag4.parents c "d"
        → ¬ Reach dag4.parents c "b")
nearest_common_ancestor_lem_example = nearest_common_ancestor_lem dag4 "d" "b"

nearest_common_ancestor-root_example : parents_of dag4.parents "a" ≡ []
nearest_common_ancestor-root_example =
    nearest_common_ancestor-root dag4 "d" "b" "a" dag4-IsWellFormed.acyclic d_b_nearest

empty-IsMirror : IsMirror empty
unfolding contains lookup or_nil
empty-IsMirror = λ p x. refl

root_append : append "a" [] empty ≡ ok (record { parents = ("a", []) ∷ []; children = [] })
unfolding append check_parents push_children contains insert
root_append = refl

append-IsMirror_example : IsMirror (record { parents = ("a", []) ∷ []; children = [] })
append-IsMirror_example =
    append-IsMirror "a" [] empty (record { parents = ("a", []) ∷ []; children = [] }) fresh
      empty-IsMirror root_append
  where
    fresh : contains_key "a" empty.parents ≡ false
    fresh = unfold contains_key in refl

from_commits_refuses_example :
    from_commits (commit_of "b" ("a" ∷ []) ∷ commit_of "a" [] ∷ []) ≢ ok dag3
from_commits_refuses_example =
    from_commits_refuses [] (commit_of "a" [] ∷ []) (commit_of "b" ("a" ∷ [])) "a" dag3 b_parent
      (nothing)
  where
    b_parent : contains "a" ("a" ∷ []) ≡ true
    b_parent = unfold contains in refl

    nothing : contains "a" [] ≡ false
    nothing = unfold contains in refl

-- facts on the graph of the other examples
pub b_not_above_a : ¬ Reach dag.parents "b" "a"
unfolding is_ancestor reachable_locked search contains lookup or_nil extend edge_count
b_not_above_a walk = false≢true ((is_ancestor-Reach dag "b" "a").1 walk)

pub a_above_b : Reach dag.parents "a" "b"
unfolding is_ancestor reachable_locked search contains lookup or_nil extend edge_count
a_above_b = (is_ancestor-Reach dag "a" "b").0 refl

abbrev pub dag_c : DagIndex
dag_c = record {
  parents = ("a", []) ∷ ("b", "a" ∷ []) ∷ ("c", "b" ∷ []) ∷ [];
  children = ("a", "b" ∷ []) ∷ ("b", "c" ∷ []) ∷ [];
}

pub c_accepted : append "c" ("b" ∷ []) dag ≡ ok dag_c
unfolding append check_parents push_children contains contains_key reachable_locked search lookup
    insert or_nil extend edge_count
c_accepted = refl

abbrev pub dag_hash : DagIndex
dag_hash = record {
  parents = ("a", []) ∷ ("b", "a" ∷ []) ∷ ("c_hash", "b" ∷ []) ∷ [];
  children = ("a", "b" ∷ []) ∷ ("b", "c_hash" ∷ []) ∷ [];
}

pub hash_accepted : append "c_hash" ("b" ∷ []) dag ≡ ok dag_hash
unfolding append check_parents push_children contains contains_key reachable_locked search lookup
    insert or_nil extend edge_count
hash_accepted = refl

pub c_refused : append "c" ("z" ∷ []) dag ≡ err "parent commit z is unknown"
unfolding append check_parents contains contains_key
c_refused = refl

two_load : from_commits (commit_of "a" [] ∷ commit_of "b" ("a" ∷ []) ∷ []) ≡ ok dag
unfolding from_commits append_all append check_parents push_children contains contains_key
    reachable_locked search lookup insert or_nil extend edge_count
two_load = refl

pub dag-IsWellFormed : IsWellFormed dag
dag-IsWellFormed =
    from_commits-IsWellFormed (commit_of "a" [] ∷ commit_of "b" ("a" ∷ []) ∷ []) dag two_load

pub dag-IsAcyclic : IsAcyclic dag.parents
dag-IsAcyclic = dag-IsWellFormed.acyclic
