-- ===== src/Json/Order.antt =====
-- Objects whose keys ascend, as a `BTreeMap` keeps them: they are equal when they have the same entries.
use Prim.Native.Nat.{Ordering}
use Prim.Native.String.compare
use Prim.Native.String.{compare}
use text.Mathlib.TextPositions.{compare_refl}
use attow_nexus.Prelude.{
  String, ◌≡◌, ◌≢◌, refl, ◌∙◌, sym, ap, true, none, some, ◌==◌, eq_iff, eq_refl, arith, Bool-cases,
  inl, inr, subst,
}
use attow_nexus.Json.{Value, Fields, object, end, field, get, has_key}

compare_asym : (s t : String) → compare s t ≡ Ordering.lt → compare t s ≢ Ordering.lt
compare_asym String.[] String.[] h k = ground (arith, compare_refl String.[])
compare_asym String.[] (String.◌∷◌ d t) h k = ground (arith, compare.cons-nil d t)
compare_asym (String.◌∷◌ c s) String.[] h k = ground (arith, compare.cons-nil c s)
compare_asym (String.◌∷◌ c s) (String.◌∷◌ d t) h k =
    ground (arith, compare_asym s t, compare.cons-cons c d s t, compare.cons-cons d c t s)

-- every key of the object comes after this one
abbrev pub IsBelow : String → Fields → Type 0
IsBelow k end = Unit
IsBelow k (field j v fs) = (compare k j ≡ Ordering.lt) × IsBelow k fs

-- The keys ascend, at every depth that a walk through objects reaches.
unfoldable mutual
  pub IsOrdered : Value → Type 0
  IsOrdered (object fs) = AreOrdered fs
  IsOrdered _ = Unit

  pub AreOrdered : Fields → Type 0
  AreOrdered end = Unit
  AreOrdered (field k v fs) = IsBelow k fs × IsOrdered v × AreOrdered fs

compare_key :
    (k i : String) (fs : Fields) → IsBelow k fs → has_key i fs ≡ true → compare k i ≡ Ordering.lt
unfolding has_key
compare_key k i end below h = cc
compare_key k i (field j v fs) (first, rest) h = elim (Bool-cases (j == i)) [
  | inl same ↦ ap (compare k) (sym ((eq_iff j i).0 same)) ∙ first
  | inr other ↦ compare_key k i fs rest (ground (arith, other))
]

pub get_below : (k : String) (fs : Fields) → IsBelow k fs → get k fs ≡ none
unfolding get
get_below k end below = refl
get_below k (field j v fs) (first, rest) = elim (Bool-cases (j == k)) [
  | inl same ↦ ground (arith, compare_refl k, (eq_iff j k).0 same, first)
  | inr other ↦ rw other (get_below k fs rest)
]

pub has_key-of_get :
    (k : String) (fs : Fields) (v : Value) → get k fs ≡ some v → has_key k fs ≡ true
unfolding get has_key
has_key-of_get k end v h = cc
has_key-of_get k (field j w fs) v h = ground (arith, has_key-of_get k fs v)

pub AreOrdered-get :
    (k : String) (fs : Fields) (v : Value) → AreOrdered fs → get k fs ≡ some v → IsOrdered v
unfolding get AreOrdered
AreOrdered-get k end v ordered h = cc
AreOrdered-get k (field j w fs) v (_, first, rest) h = elim (Bool-cases (j == k)) [
  | inl same ↦ let e : w ≡ v = ground (arith, same) in subst (λ x. IsOrdered x) e first
  | inr other ↦ AreOrdered-get k fs v rest (ground (arith, other))
]

-- Two objects with ascending keys are equal when one has the entries of the other and the keys of the
-- other are keys of the one.
pub fields_ext :
    (fs gs : Fields)
    → AreOrdered fs
    → AreOrdered gs
    → ((k : String) (v : Value) → get k gs ≡ some v → get k fs ≡ some v)
    → ((k : String) → has_key k fs ≡ true → has_key k gs ≡ true)
    → fs ≡ gs
unfolding AreOrdered get has_key
fields_ext end end _ _ entries keys = refl
fields_ext end (field k b gs) _ _ entries keys =
    let e = entries k b (ground (arith, eq_refl k)) in cc
fields_ext (field j a fs) end _ _ entries keys = let e = keys j (ground (arith, eq_refl j)) in cc
fields_ext (field j a fs) (field k b gs) (below, _, rest) (below', _, rest') entries keys =
    elim (Bool-cases (j == k)) [
      | inl same ↦ λ i.
          field ((eq_iff j k).0 same i) (values same i)
            (fields_ext fs gs rest rest' (later same) (later_keys same) i)
      | inr other ↦ absurd (
          compare_asym j k
            (compare_key j k fs below
              (has_key-of_get k fs b (ground (arith, other, entries k b, eq_refl k))))
            (compare_key k j gs below'
              (ground (arith, other, keys j, eq_refl j, eq_iff j k, eq_iff k j))))
    ]
  where
    values : (j == k) ≡ true → a ≡ b
    values same = ground (arith, same, entries k b, eq_refl k)

    later : (j == k) ≡ true → (i : String) (v : Value) → get i gs ≡ some v → get i fs ≡ some v
    later same i v h = elim (Bool-cases (k == i)) [
      | inl at ↦ ground (arith, h, get_below k gs below', (eq_iff k i).0 at)
      | inr past ↦ ground (arith, h, past, entries i v, (eq_iff j k).0 same)
    ]

    later_keys : (j == k) ≡ true → (i : String) → has_key i fs ≡ true → has_key i gs ≡ true
    later_keys same i h = elim (Bool-cases (j == i)) [
      | inl at ↦
          let e = compare_key j i fs below h in ground (arith, e, compare_refl j, (eq_iff j i).0 at)
      | inr past ↦ ground (arith, h, past, keys i, (eq_iff j k).0 same)
    ]
