-- ===== src/Dag/Append.antt =====
-- On `append` of daemon/src/ledger/dag.rs: the invariants of the index.
use attow_nexus.Prelude.{
  String, ◌≡◌, refl, ◌⊎◌, inl, inr, ⊎_elim, ◌↔◌, ◌≢◌, true, false, ◌||◌, ◌&&◌, List, [], ◌∷◌, ◌++◌,
  ◌==◌, eq_iff, eq_refl, contains, contains_head, contains_tail, contains-append,
  contains-cons_cases, Assoc, lookup, insert, contains_key, lookup-insert, contains_key-eq-true,
  or_nil, ok, arith, Bool-cases, text-cases, subst, sym,
}
use attow_nexus.Dag.{DagIndex, parents_of, reachable_locked, check_parents, push_children, append}
use attow_nexus.Dag.Walk.{IsParent, Reach, here, step, Reach-trans, IsAcyclic, parents_of-insert}
use attow_nexus.Dag.Search.{reachable_locked-Reach}

-- what the loop over the parents has checked when it passes
check_parents-eq-ok :
    (m : Assoc (List String)) (c : String) (ps : List String)
    → check_parents m c ps ≡ ok tt
    → (p : String) → contains p ps ≡ true
    → (contains_key p m ≡ true) × (reachable_locked m p c ≡ false)
unfolding check_parents contains
check_parents-eq-ok m c [] h p on = cc
check_parents-eq-ok m c (q ∷ ps) h p on = elim (contains-cons_cases p q ps on) [
  | inl same ↦ ground (arith, same)
  | inr rest ↦ check_parents-eq-ok m c ps (ground arith) p rest
]

check_parents_pass :
    (m : Assoc (List String)) (c : String) (ps : List String)
    → ((p : String)
        → contains p ps ≡ true
        → (contains_key p m ≡ true) × (reachable_locked m p c ≡ false))
    → check_parents m c ps ≡ ok tt
unfolding check_parents
check_parents_pass m c [] h = refl
check_parents_pass m c (q ∷ ps) h = ground (
  arith,
  h q (contains_head q ps),
  check_parents_pass m c ps (λ p on. h p (contains_tail p q ps on)),
)

pub append-eq-ok :
    (c : String) (ps : List String) (d e : DagIndex)
    → append c ps d ≡ ok e
    → (check_parents d.parents c ps ≡ ok tt)
      × (e.parents ≡ insert c ps d.parents)
      × (e.children ≡ push_children c ps d.children)
      × (contains c ps ≡ false)
      × (c ≢ "")
unfolding append
append-eq-ok c ps d e h = ground (arith, eq_iff c "")

module _ (m : Assoc (List String)) (c : String) (ps : List String) where
  abbrev m' : Assoc (List String)
  m' = insert c ps m

  -- An edge of the new map is a new edge out of `c` or an old edge.
  edge_cases :
      (x y : String)
      → IsParent m' y x
      → ((x ≡ c) × (contains y ps ≡ true)) ⊎ ((c == x) ≡ false) × IsParent m y x
  edge_cases x y e = elim (text-cases c x) [
    | inl same ↦ inl (sym same, ground (arith, parents_of-insert m c x ps, eq_iff c x))
    | inr other ↦ inr (other, ground (arith, parents_of-insert m c x ps))
  ]

  -- A walk to `c` can be cut where it first meets `c`, before any new edge.
  walk_to_new : {x : String} → Reach m' c x → Reach m c x
  walk_to_new here = here
  walk_to_new (step {x} {y} e w) = elim (edge_cases x y e) [
    | inl (same, _) ↦ subst (λ z. Reach m c z) (sym same) here
    | inr (_, old) ↦ step old (walk_to_new w)
  ]

  -- A walk uses old edges only, or it passes through `c`.
  walk_cases :
      {t x : String}
      → Reach m' t x
      → Reach m t x ⊎ Reach m' c x × ((p : String) × (contains p ps ≡ true) × Reach m' t p)
  walk_cases here = inl here
  walk_cases (step {x} {y} e w) = elim (edge_cases x y e) [
    | inl (same, up) ↦ inr (subst (λ z. Reach m' c z) (sym same) here, (y, up, w))
    | inr (_, old) ↦
        ⊎_elim (λ v. inl (step old v)) (λ (v, after). inr (step e v, after)) (walk_cases w)
  ]

  module _ (clean : (p : String) → contains p ps ≡ true → ¬ Reach m c p) where
    insert-IsAcyclic : IsAcyclic m → IsAcyclic m'
    insert-IsAcyclic h = record {
      no_cycle = λ x y e w. elim (edge_cases x y e) [
        | inl (same, up) ↦ clean y up (walk_to_new (subst (λ z. Reach m' z y) same w))
        | inr (other, old) ↦
            ⊎_elim (h.no_cycle x y old)
              (λ (v, (p, up, u)). clean p up (walk_to_new (Reach-trans u (step e v))))
              (walk_cases w)
      ];
    }

-- Every parent that is named is known, and no commit is its own ancestor.
pub record IsWellFormed (d : DagIndex) : Type 0 where
  pub acyclic : IsAcyclic d.parents
  pub known : (x p : String) → IsParent d.parents p x → contains_key p d.parents ≡ true

known-insert :
    (m : Assoc (List String)) (c p : String) (ps : List String)
    → contains_key p m ≡ true
    → contains_key p (insert c ps m) ≡ true
known-insert m c p ps h = ground (
  arith,
  contains_key-eq-true p m,
  contains_key-eq-true p (insert c ps m),
  lookup-insert c p ps m,
)

-- An accepted commit keeps the index acyclic and closed, also when its id was there before.
pub append-IsWellFormed :
    (c : String) (ps : List String) (d e : DagIndex)
    → IsWellFormed d
    → append c ps d ≡ ok e
    → IsWellFormed e
append-IsWellFormed c ps d e w h =
    let (checked, parents, _, _, _) = append-eq-ok c ps d e h in
    let each = check_parents-eq-ok d.parents c ps checked in
    record {
      acyclic = rw parents (
          insert-IsAcyclic d.parents c ps
            (λ p on walk.
              let found = (reachable_locked-Reach d.parents p c).1 walk in
              ground (arith, found, (each p on).1))
            w.acyclic);
      known = λ x p up.
          let up' : IsParent (insert c ps d.parents) p x = rw parents at up in
          let old : contains_key p d.parents ≡ true = elim (edge_cases d.parents c ps x p up') [
            | inl (_, on) ↦ (each p on).0
            | inr (_, before) ↦ w.known x p before
          ] in
          rw parents (known-insert d.parents c p ps old);
    }

-- `append` accepts exactly the commits with an id, not among their own parents, whose parents are
-- all known and none of them a descendant.
pub append-is_ok :
    (c : String) (ps : List String) (d : DagIndex)
    → ((e : DagIndex) × (append c ps d ≡ ok e)) ↔ (
        (c ≢ "")
        × (contains c ps ≡ false)
        × ((p : String)
            → contains p ps ≡ true
            → (contains_key p d.parents ≡ true) × (¬ Reach d.parents c p)))
append-is_ok c ps d = (accepted, accepts)
  where
    accepted :
        ((e : DagIndex) × (append c ps d ≡ ok e))
        → (c ≢ "")
          × (contains c ps ≡ false)
          × ((p : String)
              → contains p ps ≡ true
              → (contains_key p d.parents ≡ true) × (¬ Reach d.parents c p))
    accepted (e, h) =
        let (checked, _, _, own, name) = append-eq-ok c ps d e h in
        (
          name,
          own,
          λ p on.
              let (known, missed) = check_parents-eq-ok d.parents c ps checked p on in
              (known, λ walk. cc (missed, (reachable_locked-Reach d.parents p c).1 walk)),
        )

    accepts :
        (c ≢ "")
          × (contains c ps ≡ false)
          × ((p : String)
              → contains p ps ≡ true
              → (contains_key p d.parents ≡ true) × (¬ Reach d.parents c p))
        → (e : DagIndex) × (append c ps d ≡ ok e)
    accepts (name, own, each) = (
      record { parents = insert c ps d.parents; children = push_children c ps d.children },
      unfold append in
          ground (
            arith,
            eq_iff c "",
            own,
            check_parents_pass d.parents c ps (λ p on. ((each p on).0, not_found p (each p on).1)),
          ),
    )
      where
        not_found : (p : String) → ¬ Reach d.parents c p → reachable_locked d.parents p c ≡ false
        not_found p none = elim (Bool-cases (reachable_locked d.parents p c)) [
          | inl found ↦ absurd (none ((reachable_locked-Reach d.parents p c).0 found))
          | inr missed ↦ missed
        ]

-- The children map holds the parent map the other way round.
abbrev pub IsMirror : DagIndex → Type 0
IsMirror d =
    (p x : String) → contains x (or_nil (lookup p d.children)) ≡ contains p (parents_of d.parents x)

lookup-push_children :
    (c : String) (ps : List String) (ch : Assoc (List String)) (p x : String)
    → contains x (or_nil (lookup p (push_children c ps ch)))
      ≡ (contains x (or_nil (lookup p ch)) || (c == x && contains p ps))
unfolding push_children contains or_nil
lookup-push_children c [] ch p x = ground arith
lookup-push_children c (q ∷ ps) ch p x =
    let ch' = insert q (or_nil (lookup q ch) ++ c ∷ []) ch in
    ground (
      arith,
      lookup-push_children c ps ch' p x,
      lookup-insert q p (or_nil (lookup q ch) ++ c ∷ []) ch,
      contains-append x (or_nil (lookup q ch)) (c ∷ []),
      eq_iff q p,
    )

parents_of_absent :
    (m : Assoc (List String)) (c p : String)
    → contains_key c m ≡ false
    → contains p (parents_of m c) ≡ false
unfolding contains or_nil
parents_of_absent m c p fresh = ground (arith, contains_key-eq-true c m)

-- The children map stays the inverse of the parent map when the commit is new to the index.
pub append-IsMirror :
    (c : String) (ps : List String) (d e : DagIndex)
    → contains_key c d.parents ≡ false
    → IsMirror d
    → append c ps d ≡ ok e
    → IsMirror e
append-IsMirror c ps d e fresh w h p x =
    let (_, parents, children, _, _) = append-eq-ok c ps d e h in
    rw (parents, children)
      (rw (lookup-push_children c ps d.children p x, w p x, parents_of-insert d.parents c x ps)
        (elim (text-cases c x) [
          | inl same ↦ rw (← same, eq_refl c, parents_of_absent d.parents c p fresh) refl
          | inr other ↦ rw other (ground arith)
        ]))
