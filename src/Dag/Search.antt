-- ===== src/Dag/Search.antt =====
-- On the stack loop of `reachable_locked` of daemon/src/ledger/dag.rs, and its fuel.
use attow_nexus.Prelude.{
  ℕ, zero, suc, ◌+◌, ◌≤◌, ◌<◌, String, ◌≡◌, refl, ◌⊎◌, inl, inr, ⊎_elim, ◌↔◌, true, false, ◌||◌,
  List, [], ◌∷◌, ◌==◌, eq_iff, eq_refl, if◌then◌else◌, length, contains, contains_head,
  contains_tail, contains-cons_cases, Assoc, lookup, or_nil, arith, Bool-cases, ||-cases,
  text-cases, subst, sym,
}
use attow_nexus.Dag.{
  DagIndex, parents_of, extend, search, edge_count, reachable_locked, is_ancestor,
}
use attow_nexus.Dag.Walk.{IsParent, Reach, here, step}

length-extend : (ps st : List String) → length (extend ps st) ≡ length ps + length st
unfolding extend
length-extend [] st = omega arith
length-extend (p ∷ ps) st = omega (arith, length-extend ps (p ∷ st))

contains-extend :
    (x : String) (ps st : List String)
    → contains x (extend ps st) ≡ (contains x ps || contains x st)
unfolding extend contains
contains-extend x [] st = refl
contains-extend x (p ∷ ps) st = ground (arith, contains-extend x ps (p ∷ st))

-- the edges out of commits that are not yet seen
pending : Assoc (List String) → List String → ℕ
pending [] seen = 0
pending ((id, ps) ∷ m) seen = (if contains id seen then 0 else length ps) + pending m seen

pending-cons-le :
    (m : Assoc (List String)) (c : String) (seen : List String)
    → pending m (c ∷ seen) ≤ pending m seen
unfolding pending contains
pending-cons-le [] c seen = omega arith
pending-cons-le ((id, ps) ∷ m) c seen = ground (arith, pending-cons-le m c seen)

-- a visit moves the edges of the commit from the pending ones to the stack
pending_visit :
    (m : Assoc (List String)) (c : String) (seen : List String)
    → contains c seen ≡ false
    → pending m (c ∷ seen) + length (parents_of m c) ≤ pending m seen
unfolding pending contains lookup or_nil
pending_visit [] c seen h = omega arith
pending_visit ((id, ps) ∷ m) c seen h = elim (text-cases id c) [
  | inl same ↦
      let e : contains id seen ≡ false = rw same h in
      ground (arith, eq_iff id c, eq_iff c id, pending-cons-le m c seen, e)
  | inr other ↦ ground (arith, eq_iff id c, eq_iff c id, pending_visit m c seen h)
]

pending-nil : (m : Assoc (List String)) → pending m [] ≡ edge_count m
unfolding pending edge_count contains
pending-nil [] = refl
pending-nil ((id, ps) ∷ m) = omega (arith, pending-nil m)

-- What the loop has answered `true` to is reached from the stack.
search_sound :
    (fuel : ℕ) (m : Assoc (List String)) (t : String) (stack seen : List String)
    → search fuel m t stack seen ≡ true
    → (x : String) × (contains x stack ≡ true) × Reach m t x
unfolding search
search_sound zero m t stack seen h = cc
search_sound (suc fuel) m t [] seen h = cc
search_sound (suc fuel) m t (c ∷ stack) seen h = elim (text-cases c t) [
  | inl same ↦ (c, contains_head c stack, subst (λ x. Reach m t x) (sym same) here)
  | inr other ↦ elim (Bool-cases (contains c seen)) [
    | inl old ↦
        let (x, on, walk) = search_sound fuel m t stack seen (rw (other, old) at h) in
        (x, contains_tail x c stack on, walk)
    | inr new ↦
        let (x, on, walk) =
          search_sound fuel m t (extend (parents_of m c) stack) (c ∷ seen) (rw (other, new) at h) in
        pushed x walk (
          ||-cases (contains x (parents_of m c)) (contains x stack)
            (rw (contains-extend x (parents_of m c) stack) at on))
  ]
]
  where
    pushed :
        (x : String)
        → Reach m t x
        → (contains x (parents_of m c) ≡ true) ⊎ (contains x stack ≡ true)
        → (y : String) × (contains y (c ∷ stack) ≡ true) × Reach m t y
    pushed x walk (inl up) = (c, contains_head c stack, step up walk)
    pushed x walk (inr on) = (x, contains_tail x c stack on, walk)

-- A set that is closed under parents and misses the target.
record IsBarrier (m : Assoc (List String)) (t : String) (seen stack : List String) : Type 0 where
  closed :
      (u p : String)
      → contains u seen ≡ true
      → IsParent m p u
      → (contains p seen ≡ true) ⊎ (contains p stack ≡ true)
  avoids : contains t seen ≡ false

record Final (m : Assoc (List String)) (t : String) (seen stack : List String) : Type 0 where
  set : List String
  barrier : IsBarrier m t set []
  keeps : (x : String) → contains x seen ≡ true → contains x set ≡ true
  covers : (x : String) → contains x stack ≡ true → contains x set ≡ true

not-Reach_of_barrier :
    {m : Assoc (List String)} {t x : String} (s : List String)
    → IsBarrier m t s []
    → contains x s ≡ true
    → ¬ Reach m t x
unfolding contains
not-Reach_of_barrier s b h here = cc (b.avoids)
not-Reach_of_barrier s b h (step {x} {y} e w) =
    not-Reach_of_barrier s b (⊎_elim (λ k. k) (λ k. cc) (b.closed x y h e)) w

IsBarrier-skip :
    {m : Assoc (List String)} {t c : String} {seen stack : List String}
    → contains c seen ≡ true
    → IsBarrier m t seen (c ∷ stack)
    → IsBarrier m t seen stack
IsBarrier-skip {c} {seen} {stack} old b = record {
  closed = λ u p h e.
      ⊎_elim inl
        (λ on.
          ⊎_elim (λ same. inl (subst (λ x. contains x seen ≡ true) same old)) inr
            (contains-cons_cases p c stack on))
        (b.closed u p h e);
  avoids = b.avoids;
}

IsBarrier-visit :
    {m : Assoc (List String)} {t c : String} {seen stack : List String}
    → (c == t) ≡ false
    → IsBarrier m t seen (c ∷ stack)
    → IsBarrier m t (c ∷ seen) (extend (parents_of m c) stack)
unfolding contains
IsBarrier-visit {m} {t} {c} {seen} {stack} other b = record {
  closed = λ u p h e. elim (contains-cons_cases u c seen h) [
    | inl same ↦
        let up : contains p (parents_of m c) ≡ true = rw same e in
        inr (ground (arith, contains-extend p (parents_of m c) stack, up))
    | inr old ↦
        ground (arith, b.closed u p old e, contains-extend p (parents_of m c) stack, eq_iff c p)
  ];
  avoids = ground (arith, b.avoids);
}

search_complete :
    (fuel : ℕ) (m : Assoc (List String)) (t : String) (stack seen : List String)
    → length stack + pending m seen < fuel
    → IsBarrier m t seen stack
    → search fuel m t stack seen ≡ false
    → Final m t seen stack
unfolding search
search_complete zero m t stack seen enough b h = absurd (omega arith)
search_complete (suc fuel) m t [] seen enough b h = record {
  set = seen;
  barrier = b;
  keeps = λ x k. k;
  covers = λ x k. unfold contains in cc;
}
search_complete (suc fuel) m t (c ∷ stack) seen enough b h = elim (Bool-cases (c == t)) [
  | inl same ↦ cc
  | inr other ↦ elim (Bool-cases (contains c seen)) [
    | inl old ↦
        let f =
          search_complete fuel m t stack seen (omega arith) (IsBarrier-skip old b)
            (rw (other, old) at h) in
        record {
          set = f.set;
          barrier = f.barrier;
          keeps = f.keeps;
          covers = λ x k.
              ⊎_elim (λ same. f.keeps x (subst (λ y. contains y seen ≡ true) same old)) (f.covers x)
                (contains-cons_cases x c stack k);
        }
    | inr new ↦
        let f =
          search_complete fuel m t (extend (parents_of m c) stack) (c ∷ seen)
            (omega (arith, pending_visit m c seen new, length-extend (parents_of m c) stack))
            (IsBarrier-visit other b) (rw (other, new) at h) in
        record {
          set = f.set;
          barrier = f.barrier;
          keeps = λ x k. f.keeps x (contains_tail x c seen k);
          covers = λ x k.
              ⊎_elim
                (λ same.
                  f.keeps x (subst (λ y. contains y (c ∷ seen) ≡ true) same (contains_head c seen)))
                (λ on. f.covers x (ground (arith, contains-extend x (parents_of m c) stack, on)))
                (contains-cons_cases x c stack k);
        }
  ]
]

-- `reachable_locked` answers exactly whether some walk along parent edges leads to the target.
pub reachable_locked-Reach :
    (m : Assoc (List String)) (x t : String) → (reachable_locked m x t ≡ true) ↔ Reach m t x
unfolding reachable_locked contains
reachable_locked-Reach m x t = (sound, complete)
  where
    sound : reachable_locked m x t ≡ true → Reach m t x
    sound h =
        let (y, on, walk) = search_sound (suc (suc (edge_count m))) m t (x ∷ []) [] h in
        ⊎_elim (λ same. subst (λ z. Reach m t z) (sym same) walk) (λ none. cc)
          (contains-cons_cases y x [] on)

    complete : Reach m t x → reachable_locked m x t ≡ true
    complete walk = elim (Bool-cases (reachable_locked m x t)) [
      | inl found ↦ found
      | inr missed ↦
          let f =
            search_complete (suc (suc (edge_count m))) m t (x ∷ []) []
              (omega (arith, pending-nil m)) (record { closed = λ u p h e. cc; avoids = refl })
              missed in
          absurd (not-Reach_of_barrier f.set f.barrier (f.covers x (contains_head x [])) walk)
    ]

-- `is_ancestor` answers exactly whether the ancestor is the commit or one of its ancestors.
pub is_ancestor-Reach :
    (dag : DagIndex) (a c : String) → (is_ancestor dag a c ≡ true) ↔ Reach dag.parents a c
unfolding is_ancestor
is_ancestor-Reach dag a c = elim (text-cases a c) [
  | inl same ↦ (λ _. subst (λ z. Reach dag.parents a z) same here, λ _. rw (same, eq_refl c))
  | inr other ↦ rw other (reachable_locked-Reach dag.parents c a)
]
