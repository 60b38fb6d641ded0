-- ===== src/Dag/Startup.antt =====
-- `from_commits`: the index that a restart rebuilds from the stored commits.
use attow_nexus.Prelude.{
  String, ◌≡◌, refl, sym, ◌∙◌, ap, ◌≢◌, inl, inr, true, false, ◌||◌, List, [], ◌∷◌, ◌++◌, map, ◌==◌,
  contains, lookup, insert, contains_key, lookup-insert, contains_key-eq-true, or_nil, Result, ok,
  err, ◌>>=◌, arith, Bool-cases, subst,
}
use mathlib.Core.Bool.{false≢true}
use attow_nexus.Proto.{Commit}
use attow_nexus.Dag.{DagIndex, empty, append, append_all, from_commits}
use attow_nexus.Dag.Walk.{Reach, here, step}
use attow_nexus.Dag.Append.{IsWellFormed, append-IsWellFormed, append-is_ok, append-eq-ok}

empty-IsWellFormed : IsWellFormed empty
unfolding lookup or_nil contains
empty-IsWellFormed = record {
  acyclic = record { no_cycle = λ x y e w. absurd (false≢true e) };
  known = λ x p e. absurd (false≢true e);
}

pub >>=-eq-ok :
    (r : Result DagIndex) (f : DagIndex → Result DagIndex) (e : DagIndex)
    → (r >>= f) ≡ ok e
    → (d : DagIndex) × (r ≡ ok d) × (f d ≡ ok e)
>>=-eq-ok (ok d) f e h = (d, refl, h)
>>=-eq-ok (err m) f e h = cc

append_all-IsWellFormed :
    (cs : List Commit) (d e : DagIndex) → IsWellFormed d → append_all cs d ≡ ok e → IsWellFormed e
unfolding append_all
append_all-IsWellFormed [] d e w h = let same : d ≡ e = cc in subst IsWellFormed same w
append_all-IsWellFormed (c ∷ cs) d e w h =
    let (d', first, rest) =
      >>=-eq-ok (append c.commit_id c.parent_commit_ids d) (append_all cs) e h in
    append_all-IsWellFormed cs d' e
      (append-IsWellFormed c.commit_id c.parent_commit_ids d d' w first) rest

-- An index that a restart has built is acyclic and closed under parents.
pub from_commits-IsWellFormed :
    (commits : List Commit) (d : DagIndex) → from_commits commits ≡ ok d → IsWellFormed d
unfolding from_commits
from_commits-IsWellFormed commits d h = append_all-IsWellFormed commits empty d empty-IsWellFormed h

-- Commits with ids of their own, each after its parents; `known` holds the ids before.
pub data IsLoadable : List String → List Commit → Type 0 where
  done : {known : List String} → IsLoadable known []
  next :
      {known : List String} {c : Commit} {cs : List Commit}
      → c.commit_id ≢ ""
      → contains c.commit_id known ≡ false
      → ((p : String) → contains p c.parent_commit_ids ≡ true → contains p known ≡ true)
      → IsLoadable (c.commit_id ∷ known) cs
      → IsLoadable known (c ∷ cs)

Reach-known :
    (d : DagIndex)
    → IsWellFormed d
    → {t x : String} → Reach d.parents t x
    → contains_key x d.parents ≡ true
    → contains_key t d.parents ≡ true
Reach-known d w here k = k
Reach-known d w (step {x} {y} e walk) k = Reach-known d w walk (w.known x y e)

pub contains_key-append :
    (c p : String) (ps : List String) (d e : DagIndex)
    → append c ps d ≡ ok e
    → contains_key p e.parents ≡ (c == p || contains_key p d.parents)
contains_key-append c p ps d e h =
    let (_, parents, _, _, _) = append-eq-ok c ps d e h in
    rw parents (
      ground (
        arith,
        contains_key-eq-true p (insert c ps d.parents),
        contains_key-eq-true p d.parents,
        lookup-insert c p ps d.parents,
      ))

load :
    (cs : List Commit) (known : List String) (d : DagIndex)
    → IsWellFormed d
    → ((p : String) → contains_key p d.parents ≡ contains p known)
    → IsLoadable known cs
    → (e : DagIndex) × (append_all cs d ≡ ok e)
unfolding append_all contains
load [] known d w same l = (d, refl)
load (c ∷ cs) known d w same (next name fresh parents rest) =
    let c_id = c.commit_id in
    let own : contains c_id c.parent_commit_ids ≡ false =
      elim (Bool-cases (contains c_id c.parent_commit_ids)) [
        | inl on ↦ absurd (false≢true (sym fresh ∙ parents c_id on))
        | inr off ↦ off
      ] in
    let checked : (p : String)
        → contains p c.parent_commit_ids ≡ true
        → (contains_key p d.parents ≡ true) × (¬ Reach d.parents c_id p) =
      λ p on.
        let k = same p ∙ parents p on in
        (k, λ walk. false≢true (sym fresh ∙ (sym (same c_id) ∙ Reach-known d w walk k))) in
    let (d', first) = (append-is_ok c_id c.parent_commit_ids d).1 (name, own, checked) in
    let later =
      load cs (c_id ∷ known) d' (append-IsWellFormed c_id c.parent_commit_ids d d' w first)
        (λ p.
          contains_key-append c_id p c.parent_commit_ids d d' first
          ∙ ap (λ b. c_id == p || b) (same p))
        rest in
    rw first later

-- A restart accepts every list of commits with ids of their own in which parents come first.
pub from_commits-is_ok :
    (commits : List Commit) → IsLoadable [] commits → (d : DagIndex) × (from_commits commits ≡ ok d)
unfolding from_commits contains_key contains
from_commits-is_ok commits l = load commits [] empty empty-IsWellFormed (λ p. refl) l

refuse :
    (before after : List Commit) (c : Commit) (p : String) (d e : DagIndex)
    → contains p c.parent_commit_ids ≡ true
    → contains p (map (λ b. b.commit_id) before) ≡ false
    → contains_key p d.parents ≡ false
    → append_all (before ++ c ∷ after) d ≢ ok e
unfolding append_all contains
refuse [] after c p d e on absent missing h =
    let (d', first, _) =
      >>=-eq-ok (append c.commit_id c.parent_commit_ids d) (append_all after) e h in
    let (_, _, each) = (append-is_ok c.commit_id c.parent_commit_ids d).0 (d', first) in
    false≢true (sym missing ∙ (each p on).0)
refuse (b ∷ before) after c p d e on absent missing h =
    let (d', first, rest) =
      >>=-eq-ok (append b.commit_id b.parent_commit_ids d) (append_all (before ++ c ∷ after)) e h in
    refuse before after c p d' e on (ground (arith, absent))
      (contains_key-append b.commit_id p b.parent_commit_ids d d' first
        ∙ (ground (arith, absent, missing)))
      rest

-- A restart refuses every list in which some commit does not come after one of its parents.
pub from_commits_refuses :
    (before after : List Commit) (c : Commit) (p : String) (d : DagIndex)
    → contains p c.parent_commit_ids ≡ true
    → contains p (map (λ b. b.commit_id) before) ≡ false
    → from_commits (before ++ c ∷ after) ≢ ok d
unfolding from_commits contains_key
from_commits_refuses before after c p d on absent h =
    refuse before after c p empty d on absent refl h
