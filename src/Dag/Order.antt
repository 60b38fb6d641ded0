-- ===== src/Dag/Order.antt =====
-- On the order of `ancestry` of daemon/src/ledger/dag.rs.
use attow_nexus.Prelude.{
  ℕ, zero, suc, ◌<◌, String, ◌≡◌, refl, ◌⊎◌, inl, inr, ⊎_elim, true, false, List, [], ◌∷◌, ◌++◌,
  length, is_empty, contains, contains_head, contains_tail, contains-nil, contains-cons_cases,
  Assoc, arith, Bool-cases, subst,
}
use attow_nexus.Dag.{DagIndex, Collected, parents_of, collect_each, collect_ancestry, ancestry}
use attow_nexus.Dag.Walk.{IsParent, Reach, here, step, Reach-trans, IsAcyclic}
use attow_nexus.Dag.Ancestry.{
  Grows, Grows-each, Grows-collect, unseen, unseen-le, unseen-nil, unseen_visit, start,
}

-- Each commit of the list comes after its parents, where `before` holds those that come first.
abbrev pub IsOrdered : Assoc (List String) → List String → List String → Type 0
IsOrdered m before [] = Unit
IsOrdered m before (x ∷ xs) =
    ((p : String) → IsParent m p x → contains p before ≡ true) × IsOrdered m (x ∷ before) xs

IsOrdered-concat :
    (m : Assoc (List String)) (before xs : List String) (y : String)
    → IsOrdered m before xs
    → ((p : String) → IsParent m p y → (contains p xs ≡ true) ⊎ (contains p before ≡ true))
    → IsOrdered m before (xs ++ y ∷ [])
IsOrdered-concat m before [] y h last =
    (λ p e. ⊎_elim (λ none. contains-nil p none) (λ b. b) (last p e), tt)
IsOrdered-concat m before (x ∷ xs) y h last = (
  h.0,
  IsOrdered-concat m (x ∷ before) xs y h.1 (λ p e.
      ⊎_elim
        (λ k.
          ⊎_elim
            (λ same.
              inr (subst (λ z. contains z (x ∷ before) ≡ true) same (contains_head x before)))
            inl (contains-cons_cases p x xs k))
        (λ b. inr (contains_tail p x before b)) (last p e)),
)

-- A commit that was seen and is not in the list is still being visited: `id` is reached from it.
abbrev IsOpen : Assoc (List String) → String → Collected → Type 0
IsOpen m id s = (x : String) → contains x s.seen ≡ true → (contains x s.out ≡ true) ⊎ Reach m id x

IsOpen-Grows :
    {m : Assoc (List String)} {id : String} {from : List String} {s t : Collected}
    → Grows m from s t
    → IsOpen m id s
    → IsOpen m id t
IsOpen-Grows g h x k =
    ⊎_elim (λ old. ⊎_elim (λ o. inl (g.keeps_out x o)) inr (h x old)) inl (g.new_out x k)

-- the commit itself is among those being visited, once it is marked
IsOpen-self :
    (m : Assoc (List String)) (id : String) (s : Collected)
    → IsOpen m id s
    → IsOpen m id (record s { seen = id ∷ s.seen })
IsOpen-self m id s h x k =
    ⊎_elim (λ same. inr (subst (λ z. Reach m id z) same here)) (h x)
      (contains-cons_cases x id s.seen k)

IsOpen-parent :
    (m : Assoc (List String)) (id p : String) (s : Collected)
    → IsParent m p id
    → IsOpen m id s
    → IsOpen m p (record s { seen = id ∷ s.seen })
IsOpen-parent m id p s up h x k =
    ⊎_elim inl (λ w. inr (Reach-trans w (step up here))) (IsOpen-self m id s h x k)

IsOrdered-each :
    (f : ℕ) (m : Assoc (List String)) (visit : String → Collected → Collected)
    → ((p : String) (s : Collected) → unseen m s.seen < f → Grows m (p ∷ []) s (visit p s))
    → ((p : String) (s : Collected)
        → unseen m s.seen < f
        → IsOpen m p s
        → IsOrdered m [] s.out
        → IsOrdered m [] (visit p s).out)
    → (ps : List String) (s : Collected) → (is_empty ps ≡ false → unseen m s.seen < f)
    → ((p : String) → contains p ps ≡ true → IsOpen m p s)
    → IsOrdered m [] s.out
    → IsOrdered m [] (collect_each visit ps s).out
unfolding collect_each
IsOrdered-each f m visit grows keep [] s enough open_ h = h
IsOrdered-each f m visit grows keep (p ∷ ps) s enough open_ h =
    let g = grows p s (enough refl) in
    IsOrdered-each f m visit grows keep ps (visit p s)
      (λ _. omega (arith, enough refl, unseen-le m s.seen (visit p s).seen g.keeps))
      (λ q on. IsOpen-Grows g (open_ q (contains_tail q p ps on)))
      (keep p s (enough refl) (open_ p (contains_head p ps)) h)

IsOrdered-collect :
    (fuel : ℕ) (m : Assoc (List String)) (id : String) (s : Collected)
    → IsAcyclic m
    → unseen m s.seen < fuel
    → IsOpen m id s
    → IsOrdered m [] s.out
    → IsOrdered m [] (collect_ancestry fuel m id s).out
unfolding collect_ancestry
IsOrdered-collect zero m id s acyclic enough open_ h = absurd (omega arith)
IsOrdered-collect (suc fuel) m id s acyclic enough open_ h =
    elim (Bool-cases (contains id s.seen)) [
      | inl old ↦ rw old h
      | inr new ↦
          let s' : Collected = record s { seen = id ∷ s.seen } in
          let room : is_empty (parents_of m id) ≡ false → unseen m (id ∷ s.seen) < fuel =
            λ some_parent. omega (arith, unseen_visit m id s.seen new some_parent) in
          let visit = collect_ancestry fuel m in
          let t = collect_each visit (parents_of m id) s' in
          let g =
            Grows-each fuel m visit (λ p u k. Grows-collect fuel m p u k) (parents_of m id) s'
              room in
          let below =
            IsOrdered-each fuel m visit (λ p u k. Grows-collect fuel m p u k)
              (λ p u k o i. IsOrdered-collect fuel m p u acyclic k o i) (parents_of m id) s' room
              (λ p up. IsOpen-parent m id p s up open_) h in
          rw new (
            IsOrdered-concat m [] t.out id below (λ p e. inl (
              ⊎_elim (λ o. o) (λ w. absurd (acyclic.no_cycle id p e w))
                (IsOpen-Grows g (IsOpen-self m id s open_) p (g.visited p e)))))
    ]

pub ancestry-IsOrdered :
    (dag : DagIndex) (id : String)
    → IsAcyclic dag.parents
    → IsOrdered dag.parents [] (ancestry dag id)
unfolding ancestry
ancestry-IsOrdered dag id acyclic =
    IsOrdered-collect (suc (length dag.parents)) dag.parents id start acyclic
      (omega (arith, unseen-nil dag.parents)) (λ x k. contains-nil x k) tt
