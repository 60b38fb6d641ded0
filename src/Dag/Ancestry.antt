-- ===== src/Dag/Ancestry.antt =====
-- On `collect_ancestry` of daemon/src/ledger/dag.rs, and its fuel.
use attow_nexus.Prelude.{
  ℕ, zero, suc, ◌+◌, ◌≤◌, ◌<◌, String, ◌≡◌, refl, ◌⊎◌, inl, inr, ⊎_elim, ◌↔◌, true, false, List, [],
  ◌∷◌, ◌++◌, eq_iff, if◌then◌else◌, length, is_empty, contains, contains_head, contains_tail,
  contains_single, contains_last, contains-nil, contains-append, contains-cons_cases, Assoc, lookup,
  or_nil, arith, Bool-cases, ||-cases, text-cases, subst, sym,
}
use attow_nexus.Dag.{DagIndex, Collected, parents_of, collect_each, collect_ancestry, ancestry}
use attow_nexus.Dag.Walk.{IsParent, Reach, here, step}

-- the commits of the index that are not yet seen
pub unseen : Assoc (List String) → List String → ℕ
unseen [] seen = 0
unseen ((id, ps) ∷ m) seen = (if contains id seen then 0 else 1) + unseen m seen

pub unseen-le :
    (m : Assoc (List String)) (a b : List String)
    → ((x : String) → contains x a ≡ true → contains x b ≡ true)
    → unseen m b ≤ unseen m a
unfolding unseen
unseen-le [] a b h = omega arith
unseen-le ((id, ps) ∷ m) a b h = ground (arith, h id, unseen-le m a b h)

pub unseen-nil : (m : Assoc (List String)) → unseen m [] ≡ length m
unfolding unseen contains
unseen-nil [] = refl
unseen-nil ((id, ps) ∷ m) = omega (arith, unseen-nil m)

-- a visit to a commit with parents lowers the count
pub unseen_visit :
    (m : Assoc (List String)) (id : String) (seen : List String)
    → contains id seen ≡ false
    → is_empty (parents_of m id) ≡ false
    → unseen m (id ∷ seen) < unseen m seen
unfolding unseen contains lookup or_nil
unseen_visit [] id seen new h = cc
unseen_visit ((j, ps) ∷ m) id seen new h =
    let less = unseen-le m seen (id ∷ seen) (λ x k. contains_tail x id seen k) in
    elim (text-cases j id) [
      | inl same ↦
          let e : contains j seen ≡ false = rw same new in
          ground (arith, eq_iff j id, eq_iff id j, e, less)
      | inr other ↦ ground (arith, eq_iff j id, eq_iff id j, less, unseen_visit m id seen new)
    ]

-- What the traversal from the commits `from` does to the two sets.
pub record Grows (m : Assoc (List String)) (from : List String) (s t : Collected) : Type 0 where
  pub keeps : (x : String) → contains x s.seen ≡ true → contains x t.seen ≡ true
  pub keeps_out : (x : String) → contains x s.out ≡ true → contains x t.out ≡ true
  pub new_out :
      (x : String)
      → contains x t.seen ≡ true
      → (contains x s.seen ≡ true) ⊎ (contains x t.out ≡ true)
  pub closed :
      (x : String)
      → contains x t.out ≡ true
      → (contains x s.out ≡ true) ⊎ ((p : String) → IsParent m p x → contains p t.seen ≡ true)
  pub sound :
      (x : String)
      → contains x t.out ≡ true
      → (contains x s.out ≡ true) ⊎ ((p : String) × (contains p from ≡ true) × Reach m x p)
  pub visited : (p : String) → contains p from ≡ true → contains p t.seen ≡ true

Grows-nil : (m : Assoc (List String)) (s : Collected) → Grows m [] s s
unfolding contains
Grows-nil m s = record {
  keeps = λ x k. k;
  keeps_out = λ x k. k;
  new_out = λ x k. inl k;
  closed = λ x k. inl k;
  sound = λ x k. inl k;
  visited = λ p k. cc;
}

Grows-cons :
    {m : Assoc (List String)} {p : String} {ps : List String} {s t u : Collected}
    → Grows m (p ∷ []) s t
    → Grows m ps t u
    → Grows m (p ∷ ps) s u
Grows-cons {m} {p} {ps} {s} {t} {u} f g = record {
  keeps = λ x k. g.keeps x (f.keeps x k);
  keeps_out = λ x k. g.keeps_out x (f.keeps_out x k);
  new_out = λ x k.
      ⊎_elim (λ old. ⊎_elim inl (λ o. inr (g.keeps_out x o)) (f.new_out x old)) inr (g.new_out x k);
  closed = λ x k.
      ⊎_elim (λ old. ⊎_elim inl (λ c. inr (λ q e. g.keeps q (c q e))) (f.closed x old)) inr
        (g.closed x k);
  sound = λ x k.
      ⊎_elim (λ old. ⊎_elim inl (λ (q, on, w). inr (q, first q on, w)) (f.sound x old))
        (λ (q, on, w). inr (q, contains_tail q p ps on, w)) (g.sound x k);
  visited = λ q on. elim (contains-cons_cases q p ps on) [
    | inl same ↦
        g.keeps q (f.visited q (subst (λ z. contains z (p ∷ []) ≡ true) same (contains_head p [])))
    | inr rest ↦ g.visited q rest
  ];
}
  where
    first : (q : String) → contains q (p ∷ []) ≡ true → contains q (p ∷ ps) ≡ true
    first q on = unfold contains in ground arith

pub Grows-each :
    (f : ℕ) (m : Assoc (List String)) (visit : String → Collected → Collected)
    → ((p : String) (s : Collected) → unseen m s.seen < f → Grows m (p ∷ []) s (visit p s))
    → (ps : List String) (s : Collected) → (is_empty ps ≡ false → unseen m s.seen < f)
    → Grows m ps s (collect_each visit ps s)
unfolding collect_each
Grows-each f m visit h [] s enough = Grows-nil m s
Grows-each f m visit h (p ∷ ps) s enough =
    let g = h p s (enough refl) in
    Grows-cons g (
      Grows-each f m visit h ps (visit p s)
        (λ _. omega (arith, enough refl, unseen-le m s.seen (visit p s).seen g.keeps)))

-- the two sets after a commit that was not seen, from those after its parents
Grows-visit :
    {m : Assoc (List String)} {id : String} {s b : Collected}
    → Grows m (parents_of m id) (record s { seen = id ∷ s.seen }) b
    → Grows m (id ∷ []) s (record b { out = b.out ++ id ∷ [] })
Grows-visit {m} {id} {s} {b} g = record {
  keeps = λ x k. g.keeps x (contains_tail x id s.seen k);
  keeps_out = λ x k. early x (g.keeps_out x k);
  new_out = λ x k.
      ⊎_elim (λ old. ⊎_elim (λ same. inr (last x same)) inl (contains-cons_cases x id s.seen old))
        (λ o. inr (early x o)) (g.new_out x k);
  closed = λ x k.
      ⊎_elim (λ o. g.closed x o)
        (λ same. inr (λ p e. g.visited p (subst (λ z. IsParent m p z) (sym same) e))) (late x k);
  sound = λ x k.
      ⊎_elim
        (λ o. ⊎_elim inl (λ (p, on, w). inr (id, contains_head id [], step on w)) (g.sound x o))
        (λ same. inr (id, contains_head id [], subst (λ z. Reach m z id) same here)) (late x k);
  visited = λ p on. g.keeps p (
      subst (λ z. contains z (id ∷ s.seen) ≡ true) (contains_single p id on)
        (contains_head id s.seen));
}
  where
    early : (x : String) → contains x b.out ≡ true → contains x (b.out ++ id ∷ []) ≡ true
    early x k = ground (arith, contains-append x b.out (id ∷ []))

    last : (x : String) → id ≡ x → contains x (b.out ++ id ∷ []) ≡ true
    last x same = subst (λ z. contains z (b.out ++ id ∷ []) ≡ true) same (contains_last id b.out)

    late :
        (x : String) → contains x (b.out ++ id ∷ []) ≡ true → (contains x b.out ≡ true) ⊎ (id ≡ x)
    late x k =
        ⊎_elim inl (λ h. inr (contains_single x id h))
          (||-cases (contains x b.out) (contains x (id ∷ [])) (rw contains-append at k))

pub Grows-collect :
    (fuel : ℕ) (m : Assoc (List String)) (id : String) (s : Collected)
    → unseen m s.seen < fuel
    → Grows m (id ∷ []) s (collect_ancestry fuel m id s)
unfolding collect_ancestry
Grows-collect zero m id s enough = absurd (omega arith)
Grows-collect (suc fuel) m id s enough = elim (Bool-cases (contains id s.seen)) [
  | inl old ↦ rw old (record {
    keeps = λ x k. k;
    keeps_out = λ x k. k;
    new_out = λ x k. inl k;
    closed = λ x k. inl k;
    sound = λ x k. inl k;
    visited = λ p on. subst (λ z. contains z s.seen ≡ true) (contains_single p id on) old;
  })
  | inr new ↦ rw new (
      Grows-visit (
        Grows-each fuel m (collect_ancestry fuel m) (λ p t k. Grows-collect fuel m p t k)
          (parents_of m id) (record s { seen = id ∷ s.seen })
          (λ some_parent. omega (arith, unseen_visit m id s.seen new some_parent))))
]

abbrev pub start : Collected
start = record { seen = []; out = [] }

Grows-ancestry :
    (m : Assoc (List String)) (id : String)
    → Grows m (id ∷ []) start (collect_ancestry (suc (length m)) m id start)
Grows-ancestry m id = Grows-collect (suc (length m)) m id start (omega (arith, unseen-nil m))

-- all that was seen is in the list, since the traversal began with empty sets
mem_of_seen :
    (m : Assoc (List String)) (id x : String)
    → contains x (collect_ancestry (suc (length m)) m id start).seen ≡ true
    → contains x (collect_ancestry (suc (length m)) m id start).out ≡ true
unfolding contains
mem_of_seen m id x k = ⊎_elim (λ none. cc) (λ o. o) ((Grows-ancestry m id).new_out x k)

-- the list is closed under parents
pub ancestry_closed :
    (dag : DagIndex) (id x p : String)
    → contains x (ancestry dag id) ≡ true
    → IsParent dag.parents p x
    → contains p (ancestry dag id) ≡ true
unfolding ancestry contains
ancestry_closed dag id x p k e =
    mem_of_seen dag.parents id p
      (⊎_elim (λ none. cc) (λ c. c p e) ((Grows-ancestry dag.parents id).closed x k))

-- `ancestry` lists exactly the commit and the commits that walks along parent edges reach.
pub mem-ancestry :
    (dag : DagIndex) (id x : String)
    → (contains x (ancestry dag id) ≡ true) ↔ Reach dag.parents x id
mem-ancestry dag id x = (sound, λ w. complete w own)
  where
    own : contains id (ancestry dag id) ≡ true
    own =
        unfold ancestry in
        mem_of_seen dag.parents id id
          ((Grows-ancestry dag.parents id).visited id (contains_head id []))

    complete :
        {y : String}
        → Reach dag.parents x y
        → contains y (ancestry dag id) ≡ true
        → contains x (ancestry dag id) ≡ true
    complete here k = k
    complete (step e w) k = complete w (ancestry_closed dag id _ _ k e)

    sound : contains x (ancestry dag id) ≡ true → Reach dag.parents x id
    sound k =
        ⊎_elim (λ none. contains-nil x none)
          (λ (p, on, w). subst (λ z. Reach dag.parents x z) (sym (contains_single p id on)) w)
          ((Grows-ancestry dag.parents id).sound x (unfold ancestry in k))
