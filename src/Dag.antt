-- ===== src/Dag.antt =====
-- daemon/src/ledger/dag.rs: `DagIndex`, the in-memory index of the commit graph.
pub mod Walk
pub mod Search
pub mod Append
pub mod Ancestry
pub mod Order
pub mod Common
pub mod Startup
pub mod Tests
use attow_nexus.Prelude.{
  ℕ, zero, suc, ◌+◌, String, ◌<>◌, Bool, true, false, Option, none, some, List, [], ◌∷◌, ◌++◌, map,
  ◌==◌, if◌then◌else◌, length, find, contains, Assoc, lookup, insert, contains_key, or_nil, Result,
  ok, err, ◌>>=◌,
}
use attow_nexus.Proto.{Commit}

pub record DagIndex : Type 0 where
  pub parents : Assoc (List String)
  pub children : Assoc (List String)

abbrev pub empty : DagIndex
empty = record { parents = []; children = [] }

-- `parents.get(id)`, with nothing for an unknown commit
abbrev pub parents_of : Assoc (List String) → String → List String
parents_of parents id = or_nil (lookup id parents)

-- `stack.extend(next)`: the head of the list is the top of the stack
unfoldable pub extend : List String → List String → List String
extend [] stack = stack
extend (p ∷ ps) stack = extend ps (p ∷ stack)

-- The loop of `reachable_locked`, one unit of fuel for each `pop`.
pub search : ℕ → Assoc (List String) → String → List String → List String → Bool
search zero parents target stack seen = false
search (suc fuel) parents target [] seen = false
search (suc fuel) parents target (current ∷ stack) seen =
    let skip = search fuel parents target stack seen in
    let visit =
      search fuel parents target (extend (parents_of parents current) stack) (current ∷ seen) in
    if current == target then true else if contains current seen then skip else visit

-- the edges of the graph: each is pushed at most once
unfoldable pub edge_count : Assoc (List String) → ℕ
edge_count [] = 0
edge_count ((id, ps) ∷ m) = length ps + edge_count m

pub reachable_locked : Assoc (List String) → String → String → Bool
reachable_locked parents from target =
    search (suc (suc (edge_count parents))) parents target (from ∷ []) []

-- The loop of `append` over the parents of the commit.
pub check_parents : Assoc (List String) → String → List String → Result (Unit {0})
check_parents parents id [] = ok tt
check_parents parents id (parent ∷ rest) =
    if contains_key parent parents
    then (if reachable_locked parents parent id
        then err "commit would introduce a DAG cycle"
        else check_parents parents id rest)
    else err ("parent commit " <> parent <> " is unknown")

-- `children.entry(parent).or_default().push(id)` for each parent
pub push_children : String → List String → Assoc (List String) → Assoc (List String)
push_children id [] children = children
push_children id (parent ∷ rest) children =
    push_children id rest (insert parent (or_nil (lookup parent children) ++ id ∷ []) children)

-- The arguments are the two fields of the commit that `append` reads.
pub append : String → List String → DagIndex → Result DagIndex
unfolding check_parents
append commit_id parent_ids dag =
    if commit_id == ""
    then err "commit_id is required"
    else if contains commit_id parent_ids
    then err "commit cannot parent itself"
    else (check_parents dag.parents commit_id parent_ids >>= λ _. ok (record {
      parents = insert commit_id parent_ids dag.parents;
      children = push_children commit_id parent_ids dag.children;
    }))

-- `from_commits`, from the index that holds the commits before
unfoldable pub append_all : List Commit → DagIndex → Result DagIndex
append_all [] dag = ok dag
append_all (c ∷ cs) dag = append c.commit_id c.parent_commit_ids dag >>= append_all cs

unfoldable pub from_commits : List Commit → Result DagIndex
unfolding append_all
from_commits commits = append_all commits empty

pub is_ancestor : DagIndex → String → String → Bool
is_ancestor dag ancestor commit_id =
    if ancestor == commit_id then true else reachable_locked dag.parents commit_id ancestor

-- `seen` and `out` of `collect_ancestry`
pub record Collected : Type 0 where
  pub seen : List String
  pub out : List String

-- The `for` loop over the parents, with the recursive call handed in.
pub collect_each : (String → Collected → Collected) → List String → Collected → Collected
collect_each visit [] s = s
collect_each visit (parent ∷ rest) s = collect_each visit rest (visit parent s)

pub collect_ancestry : ℕ → Assoc (List String) → String → Collected → Collected
collect_ancestry zero parents id s = s
collect_ancestry (suc fuel) parents id s =
    let below =
      collect_each (collect_ancestry fuel parents) (parents_of parents id)
        (record s { seen = id ∷ s.seen }) in
    if contains id s.seen then s else record below { out = below.out ++ id ∷ [] }

pub ancestry : DagIndex → String → List String
ancestry dag id =
    (collect_ancestry (suc (length dag.parents)) dag.parents id
      (record { seen = []; out = [] })).out

pub nearest_common_ancestor : DagIndex → String → String → Option String
nearest_common_ancestor dag a b =
    let a_ancestry = ancestry dag a in find (λ id. contains id a_ancestry) (ancestry dag b)

pub export_edges : Assoc (List String) → List (String × String)
export_edges [] = []
export_edges ((child, ps) ∷ m) = map (λ p. (p, child)) ps ++ export_edges m
