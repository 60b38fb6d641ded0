-- ===== src/Dag/Common.antt =====
-- On `nearest_common_ancestor` of daemon/src/ledger/dag.rs.
use attow_nexus.Prelude.{
  String, ◌≡◌, refl, ap, ◌≢◌, ◌⊎◌, inl, inr, ⊎_elim, Bool, true, false, none, some, List, [], ◌∷◌,
  ◌++◌, find, contains, contains_head, contains_tail, contains-nil, contains-cons_cases,
  contains_middle, Assoc, arith, Bool-cases, subst, List-cases,
}
use attow_nexus.Dag.{DagIndex, parents_of, ancestry, nearest_common_ancestor}
use attow_nexus.Dag.Walk.{IsParent, Reach, here, step, Reach-trans, IsAcyclic}
use attow_nexus.Dag.Ancestry.{mem-ancestry}
use attow_nexus.Dag.Order.{IsOrdered, ancestry-IsOrdered}

-- the first element that passes, and what stands before it
pub find-eq-some :
    (p : String → Bool) (xs : List String) (c : String)
    → find p xs ≡ some c
    → (p c ≡ true)
      × ((pre : List String) × (post : List String) × (xs ≡ pre ++ c ∷ post)
          × ((y : String) → contains y pre ≡ true → p y ≡ false))
find-eq-some p [] c h = cc
find-eq-some p (x ∷ xs) c h = elim (Bool-cases (p x)) [
  | inl pass ↦
      let e : x ≡ c = ground (arith, pass) in
      (subst (λ z. p z ≡ true) e pass, ([], xs, ap (λ z. z ∷ xs) e, λ y k. contains-nil y k))
  | inr fail ↦
      let (pass, (pre, post, e, before)) = find-eq-some p xs c (rw fail at h) in
      (
        pass,
        (
          x ∷ pre,
          post,
          ap (◌∷◌ x) e,
          λ y k.
              ⊎_elim (λ same. subst (λ z. p z ≡ false) same fail) (before y)
                (contains-cons_cases y x pre k),
        ),
      )
]

find-eq-none :
    (p : String → Bool) (xs : List String)
    → find p xs ≡ none
    → (y : String) → contains y xs ≡ true
    → p y ≡ false
find-eq-none p [] h y k = contains-nil y k
find-eq-none p (x ∷ xs) h y k = elim (Bool-cases (p x)) [
  | inl pass ↦ ground (arith, pass)
  | inr fail ↦
      ⊎_elim (λ same. subst (λ z. p z ≡ false) same fail) (find-eq-none p xs (rw fail at h) y)
        (contains-cons_cases y x xs k)
]

-- in an ordered list the parents of an element stand before it
pub IsOrdered-parents :
    (m : Assoc (List String)) (before pre post : List String) (x p : String)
    → IsOrdered m before (pre ++ x ∷ post)
    → IsParent m p x
    → (contains p pre ≡ true) ⊎ (contains p before ≡ true)
IsOrdered-parents m before [] post x p h e = inr (h.0 p e)
IsOrdered-parents m before (y ∷ pre) post x p h e =
    ⊎_elim (λ k. inl (contains_tail p y pre k))
      (λ k.
        ⊎_elim (λ same. inl (subst (λ z. contains z (y ∷ pre) ≡ true) same (contains_head y pre)))
          inr (contains-cons_cases p y before k))
      (IsOrdered-parents m (y ∷ before) pre post x p h.1 e)

-- In an acyclic index the parents of a commit come before it in every ancestry that lists it.
pub ancestry_parents_first :
    (dag : DagIndex) (id x p : String) (pre post : List String)
    → IsAcyclic dag.parents
    → ancestry dag id ≡ pre ++ x ∷ post
    → IsParent dag.parents p x
    → contains p pre ≡ true
ancestry_parents_first dag id x p pre post acyclic split e =
    ⊎_elim (λ k. k) (λ k. contains-nil p k)
      (IsOrdered-parents dag.parents [] pre post x p
        (subst (λ l. IsOrdered dag.parents [] l) split (ancestry-IsOrdered dag id acyclic)) e)

-- `nearest_common_ancestor` finds nothing exactly when there is no common ancestor, and what it
-- finds is one.
pub nearest_common_ancestor_lem :
    (dag : DagIndex) (a b : String)
    → ((c : String)
        → nearest_common_ancestor dag a b ≡ some c
        → Reach dag.parents c a × Reach dag.parents c b)
      × (nearest_common_ancestor dag a b ≡ none
          → (c : String) → Reach dag.parents c a
          → ¬ Reach dag.parents c b)
unfolding nearest_common_ancestor
nearest_common_ancestor_lem dag a b = (
  λ c h.
      let (pass, (pre, post, split, _)) =
        find-eq-some (λ id. contains id (ancestry dag a)) (ancestry dag b) c h in
      (
        (mem-ancestry dag a c).0 pass,
        (mem-ancestry dag b c).0 (rw split (contains_middle c pre post)),
      ),
  λ h c wa wb. cc (
    (mem-ancestry dag a c).1 wa,
    find-eq-none (λ id. contains id (ancestry dag a)) (ancestry dag b) h c
        ((mem-ancestry dag b c).1 wb),
  ),
)

first_parent : (ps : List String) → ps ≢ [] → (p : String) × (contains p ps ≡ true)
first_parent [] h = absurd (h refl)
first_parent (p ∷ ps) h = (p, contains_head p ps)

-- In an acyclic index whatever `nearest_common_ancestor` finds has no parents: it is the first root
-- of the second commit's ancestry that both share, and never a nearer common ancestor.
pub nearest_common_ancestor-root :
    (dag : DagIndex) (a b c : String)
    → IsAcyclic dag.parents
    → nearest_common_ancestor dag a b ≡ some c
    → parents_of dag.parents c ≡ []
unfolding nearest_common_ancestor
nearest_common_ancestor-root dag a b c acyclic h =
    let (pass, (pre, post, split, before)) =
      find-eq-some (λ id. contains id (ancestry dag a)) (ancestry dag b) c h in
    elim (List-cases (parents_of dag.parents c)) [
      | inl root ↦ root
      | inr (p, rest, e) ↦
          let up : IsParent dag.parents p c = rw e (contains_head p rest) in
          let shared =
            (mem-ancestry dag a p).1 (Reach-trans ((mem-ancestry dag a c).0 pass) (step up here)) in
          cc (shared, before p (ancestry_parents_first dag b c p pre post acyclic split up))
    ]
