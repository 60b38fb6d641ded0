-- ===== src/Ledger/Replay/Gather.antt =====
-- On `collect` of daemon/src/ledger/replay.rs: the commits that it gathers, and the depth that it needs.
use attow_nexus.Prelude.Exec.{Exec}
use attow_nexus.Prelude.{
  ℕ, zero, suc, ◌<◌, String, ◌≡◌, refl, sym, ◌∙◌, ap, subst, ◌⊎◌, inl, inr, ⊎_elim, true, false,
  ◌||◌, List, [], ◌∷◌, ◌==◌, eq_iff, eq_refl, contains, contains_head, contains_tail, contains-nil,
  contains-append, contains-cons_cases, contains_single, Assoc, contains_key, ok, arith, Bool-cases,
  text-cases, ||-cases,
}
use mathlib.Core.List.{map-append}
use attow_nexus.Platform.{Platform}
use attow_nexus.Proto.{Commit}
use attow_nexus.Dag.{parents_of}
use attow_nexus.Dag.Walk.{IsParent, Reach, here, step, Reach-trans}
use attow_nexus.Dag.Ancestry.{unseen, unseen_visit}
use attow_nexus.Ledger.Store.Rows.{Store}
use attow_nexus.Ledger.Store.Laws.{get_commit-view}
use attow_nexus.Ledger.Replay.{collect_each, push_new, collect}
use attow_nexus.Ledger.Replay.History.{
  ids, IsUnique, IsUnique-last, any-contains, has_parent, graph, IsHistory, parents_of-graph,
  stored,
}

-- What gathering from the commits `from` adds to the list.
pub record Gathers (m : Assoc (List String)) (from : List String) (out all : List Commit)
    : Type 0 where
  pub keeps : (x : String) → contains x (ids out) ≡ true → contains x (ids all) ≡ true
  pub sound :
      (x : String)
      → contains x (ids all) ≡ true
      → (contains x (ids out) ≡ true) ⊎ ((y : String) × (contains y from ≡ true) × Reach m x y)
  pub complete : (x y : String) → contains y from ≡ true → Reach m x y → contains x (ids all) ≡ true
  pub unique : IsUnique (ids out) → IsUnique (ids all)

Gathers-nil : (m : Assoc (List String)) (out : List Commit) → Gathers m [] out out
Gathers-nil m out = record {
  keeps = λ x k. k;
  sound = λ x k. inl k;
  complete = λ x y on w. contains-nil y on;
  unique = λ u. u;
}

Gathers-cons :
    {m : Assoc (List String)} {y : String} {ys : List String} {a b c : List Commit}
    → Gathers m (y ∷ []) a b
    → Gathers m ys b c
    → Gathers m (y ∷ ys) a c
Gathers-cons {m} {y} {ys} {a} {b} {c} f g = record {
  keeps = λ x k. g.keeps x (f.keeps x k);
  sound = λ x k.
      ⊎_elim (λ old. ⊎_elim inl (λ (z, on, w). inr (z, first z on, w)) (f.sound x old))
        (λ (z, on, w). inr (z, contains_tail z y ys on, w)) (g.sound x k);
  complete = λ x z on w. elim (contains-cons_cases z y ys on) [
    | inl same ↦
        g.keeps x
          (f.complete x z (subst (λ v. contains v (y ∷ []) ≡ true) same (contains_head y [])) w)
    | inr rest ↦ g.complete x z rest w
  ];
  unique = λ u. g.unique (f.unique u);
}
  where
    first : (z : String) → contains z (y ∷ []) ≡ true → contains z (y ∷ ys) ≡ true
    first z on = unfold contains in ground arith

mem-push_new :
    (c : Commit) (below : List Commit) (x : String)
    → contains x (ids (push_new c below)) ≡ (contains x (ids below) || c.commit_id == x)
unfolding push_new contains
mem-push_new c below x = elim (Bool-cases (contains c.commit_id (ids below))) [
  | inl old ↦
      rw (any-contains c.commit_id below, old)
        (elim (text-cases c.commit_id x) [
          | inl same ↦
              let there : contains x (ids below) ≡ true =
                subst (λ z. contains z (ids below) ≡ true) same old in
              ground (arith, there)
          | inr other ↦ ground (arith, other)
        ])
  | inr new ↦
      rw (any-contains c.commit_id below, new)
        (rw (map-append (λ (d : Commit). d.commit_id) below (c ∷ []))
          (contains-append x (ids below) (c.commit_id ∷ []) ∙ ground arith))
]

IsUnique-push_new :
    (c : Commit) (below : List Commit) → IsUnique (ids below) → IsUnique (ids (push_new c below))
unfolding push_new
IsUnique-push_new c below u = elim (Bool-cases (contains c.commit_id (ids below))) [
  | inl old ↦ rw (any-contains c.commit_id below, old) u
  | inr new ↦
      rw (any-contains c.commit_id below, new)
        (rw (map-append (λ (d : Commit). d.commit_id) below (c ∷ []))
          (IsUnique-last (ids below) c.commit_id new u))
]

-- the list after a commit, from the list after its parents
Gathers-push :
    {m : Assoc (List String)} (c : Commit) {out below : List Commit}
    → Gathers m (parents_of m c.commit_id) out below
    → Gathers m (c.commit_id ∷ []) out (push_new c below)
Gathers-push {m} c {out} {below} g = record {
  keeps = λ x k. early x (g.keeps x k);
  sound = λ x k.
      ⊎_elim
        (λ old.
          ⊎_elim inl (λ (y, on, w). inr (c.commit_id, contains_head c.commit_id [], step on w))
            (g.sound x old))
        (λ same. inr (
          c.commit_id,
          contains_head c.commit_id [],
          subst (λ z. Reach m z c.commit_id) ((eq_iff c.commit_id x).0 same) here,
        ))
        (||-cases (contains x (ids below)) (c.commit_id == x) (sym (mem-push_new c below x) ∙ k));
  complete = λ x y on w.
      let same : c.commit_id ≡ y = contains_single y c.commit_id on in
      ancestors x (subst (λ z. Reach m x z) (sym same) w);
  unique = λ u. IsUnique-push_new c below (g.unique u);
}
  where
    early :
        (x : String) → contains x (ids below) ≡ true → contains x (ids (push_new c below)) ≡ true
    early x k = mem-push_new c below x ∙ (ground (arith, k))

    own : contains c.commit_id (ids (push_new c below)) ≡ true
    own = mem-push_new c below c.commit_id ∙ (ground (arith, eq_refl c.commit_id))

    by_walk :
        (x v : String) → Reach m x v → c.commit_id ≡ v → contains x (ids (push_new c below)) ≡ true
    by_walk x v here same = subst (λ z. contains z (ids (push_new c below)) ≡ true) same own
    by_walk x v (step {y = y} e w) same =
        early x (g.complete x y (subst (λ z. IsParent m y z) (sym same) e) w)

    ancestors : (x : String) → Reach m x c.commit_id → contains x (ids (push_new c below)) ≡ true
    ancestors x w = by_walk x c.commit_id w refl

module _ (p : Platform) (s : Store) where
  each :
      (m : Assoc (List String)) (visit : String → List Commit → Exec Store (List Commit))
      (ys : List String)
      → ((y : String) (out : List Commit)
          → contains y ys ≡ true
          → (all : List Commit) × (visit y out s ≡ (ok all, s)) × Gathers m (y ∷ []) out all)
      → (out : List Commit)
      → (all : List Commit) × (collect_each visit ys out s ≡ (ok all, s)) × Gathers m ys out all
  unfolding collect_each
  each m visit [] h out = (out, refl, Gathers-nil m out)
  each m visit (y ∷ ys) h out =
      let (below, first, f) = h y out (contains_head y ys) in
      let (all, rest, g) = each m visit ys (λ z o on. h z o (contains_tail z y ys on)) below in
      (all, rw first rest, Gathers-cons f g)

  -- The commits of a path are below the commit that it has led to, so no commit comes twice on it.
  pub gather :
      (fuel : ℕ) (path : List String) (id : String) (out : List Commit)
      → IsHistory p s
      → contains_key id s.commits ≡ true
      → contains id path ≡ false
      → ((z : String) → contains z path ≡ true → Reach (graph p s.commits) id z)
      → unseen (graph p s.commits) path < fuel
      → (all : List Commit) × (collect p fuel id out s ≡ (ok all, s))
        × Gathers (graph p s.commits) (id ∷ []) out all
  unfolding collect
  gather zero path id out h on fresh up enough = absurd (omega (arith, enough))
  gather (suc fuel) path id out h on fresh up enough =
      let m = graph p s.commits in
      let (c, found, name) = stored p s id h.readable on in
      let parents = parents_of-graph p s.commits id c found in
      let (below, done, g) =
        each m (collect p fuel) c.parent_commit_ids
          (λ y o e.
            let up_e : IsParent m y id = rw parents e in
            gather fuel (id ∷ path) y o h (h.known id y up_e) (off_path y up_e) (below_id y up_e)
              (deeper y up_e))
          out in
      (
        push_new c below,
        rw (get_commit-view p id s h.readable) (rw found (rw done refl)),
        subst (λ z. Gathers m (z ∷ []) out (push_new c below)) name
            (Gathers-push c (
              subst (λ zs. Gathers m zs out below) (sym parents ∙ ap (parents_of m) (sym name)) g)),
      )
    where
      off_path : (y : String) → IsParent (graph p s.commits) y id → contains y (id ∷ path) ≡ false
      off_path y e = elim (Bool-cases (contains y (id ∷ path))) [
        | inl on_path ↦ elim (contains-cons_cases y id path on_path) [
          | inl same ↦
              absurd
                (h.acyclic.no_cycle id y e (subst (λ z. Reach (graph p s.commits) id z) same here))
          | inr below ↦ absurd (h.acyclic.no_cycle id y e (up y below))
        ]
        | inr off ↦ off
      ]

      below_id :
          (y : String)
          → IsParent (graph p s.commits) y id
          → (z : String) → contains z (id ∷ path) ≡ true
          → Reach (graph p s.commits) y z
      below_id y e z on_path = elim (contains-cons_cases z id path on_path) [
        | inl same ↦ subst (λ v. Reach (graph p s.commits) y v) same (step e here)
        | inr k ↦ Reach-trans (up z k) (step e here)
      ]

      deeper :
          (y : String)
          → IsParent (graph p s.commits) y id
          → unseen (graph p s.commits) (id ∷ path) < fuel
      deeper y e =
          let smaller =
            unseen_visit (graph p s.commits) id path fresh
              (has_parent (parents_of (graph p s.commits) id) y e) in
          omega (arith, smaller, enough)
