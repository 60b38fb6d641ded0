-- ===== src/Ledger/Diff/Laws.antt =====
-- On daemon/src/ledger/diff.rs: what a difference without entries says of the two commits.
use attow_nexus.Prelude.{
  String, ◌≡◌, refl, sym, ◌∙◌, ap, true, Option, none, some, List, [], ◌∷◌, ◌++◌, ◌==◌, eq_iff,
  eq_refl, if◌then◌else◌, concat, arith, Bool-cases, inl, inr,
}
use attow_nexus.Platform.{Platform}
use attow_nexus.Json.{Value, Fields, null, object, end, field, get, has_key, value_eq}
use attow_nexus.Json.Laws.{value_eq_iff}
use attow_nexus.Json.Order.{IsOrdered, AreOrdered, get_below, AreOrdered-get, fields_ext}
use attow_nexus.Proto.{DiffEntry}
use attow_nexus.Ledger.Diff.{removed, diff_value, diff_fields, changed}

pub parts_nil {ℓ} : {A : Type ℓ} (xs ys : List A) → xs ++ ys ≡ [] → (xs ≡ []) × (ys ≡ [])
parts_nil [] ys h = (refl, h)
parts_nil (x ∷ xs) ys h = cc

pub both_nil {ℓ} : {A : Type ℓ} (xs ys : List A) → xs ≡ [] → ys ≡ [] → xs ++ ys ≡ []
both_nil xs ys h k = rw (h, k) refl

module _ (p : Platform) where
  removed_sound :
      (path : String) (fs gs : Fields)
      → removed p path fs gs ≡ []
      → (k : String) → has_key k fs ≡ true
      → has_key k gs ≡ true
  unfolding removed has_key
  removed_sound path end gs h k on = cc
  removed_sound path (field j v fs) gs h k on = elim (Bool-cases (has_key j gs)) [
    | inr gone ↦ ground (arith, h, gone)
    | inl there ↦ elim (Bool-cases (j == k)) [
      | inl same ↦ ap (λ i. has_key i gs) (sym ((eq_iff j k).0 same)) ∙ there
      | inr other ↦ removed_sound path fs gs (rw there at h) k (ground (arith, other))
    ]
  ]

  removed_complete :
      (path : String) (fs gs : Fields)
      → ((k : String) → has_key k fs ≡ true → has_key k gs ≡ true)
      → removed p path fs gs ≡ []
  unfolding removed has_key
  removed_complete path end gs h = refl
  removed_complete path (field j v fs) gs h =
      rw (h j (ground (arith, eq_refl j)))
        (removed_complete path fs gs (λ k on. h k (ground arith)))

  plain_sound :
      (path : String) (v w : Value)
      → (if value_eq v w then [] else changed p path "changed" v w ∷ []) ≡ []
      → v ≡ w
  plain_sound path v w h = (value_eq_iff v w).0 (ground (arith, h))

  -- the entry of one key of the second object
  abbrev at_key : String → Value → Option Value → List DiffEntry
  at_key child value found = elim found [
    | some old ↦ diff_value p child old value
    | none ↦ changed p child "added" null value ∷ []
  ]

  at_key_sound :
      (child : String) (value : Value) (fs : Fields) (found : Option Value)
      → ((old : Value) → IsOrdered old → diff_value p child old value ≡ [] → old ≡ value)
      → ((old : Value) → found ≡ some old → IsOrdered old)
      → at_key child value found ≡ []
      → found ≡ some value
  at_key_sound child value fs none same ordered h = cc
  at_key_sound child value fs (some old) same ordered h = ap some (same old (ordered old refl) h)

  mutual
    unfolding diff_value diff_fields IsOrdered AreOrdered get

    pub diff_value_sound :
        (path : String) (v w : Value)
        → IsOrdered v
        → IsOrdered w
        → diff_value p path v w ≡ []
        → v ≡ w
    diff_value_sound path (object fs) (object gs) o o' h =
        let (gone, rest) = parts_nil (removed p path fs gs) (diff_fields p path fs gs) h in
        ap object (
          fields_ext fs gs o o' (diff_fields_sound path fs gs o o' rest)
            (removed_sound path fs gs gone))
    diff_value_sound path v w o o' h = plain_sound path v w h

    diff_fields_sound :
        (path : String) (fs gs : Fields)
        → AreOrdered fs
        → AreOrdered gs
        → diff_fields p path fs gs ≡ []
        → (k : String) (v : Value) → get k gs ≡ some v
        → get k fs ≡ some v
    diff_fields_sound path fs end o o' h k v found = cc
    diff_fields_sound path fs (field j w gs) o (below, first, rest) h k v found =
        let child = concat (path ∷ "." ∷ j ∷ []) in
        let (here, later) = parts_nil (at_key child w (get j fs)) (diff_fields p path fs gs) h in
        elim (Bool-cases (j == k)) [
          | inl same ↦
              let e : w ≡ v = ground (arith, same) in
              ap (λ i. get i fs) (sym ((eq_iff j k).0 same))
              ∙ at_key_sound child w fs (get j fs)
                  (λ old ordered. diff_value_sound child old w ordered first)
                  (λ old there. AreOrdered-get j fs old o there) here
              ∙ ap some e
          | inr other ↦ diff_fields_sound path fs gs o rest later k v (ground (arith, other))
        ]

  mutual
    unfolding diff_value diff_fields IsOrdered AreOrdered get

    pub diff_value_refl : (path : String) (v : Value) → IsOrdered v → diff_value p path v v ≡ []
    diff_value_refl path (object fs) o =
        both_nil (removed p path fs fs) (diff_fields p path fs fs)
          (removed_complete path fs fs (λ k on. on))
          (diff_fields_refl path fs fs o (λ k v found. found))
    diff_value_refl path v o = rw ((value_eq_iff v v).1 refl) refl

    diff_fields_refl :
        (path : String) (fs gs : Fields)
        → AreOrdered gs
        → ((k : String) (v : Value) → get k gs ≡ some v → get k fs ≡ some v)
        → diff_fields p path fs gs ≡ []
    diff_fields_refl path fs end o entries = refl
    diff_fields_refl path fs (field j w gs) (below, first, rest) entries =
        let child = concat (path ∷ "." ∷ j ∷ []) in
        let there : get j fs ≡ some w = entries j w (ground (arith, eq_refl j)) in
        both_nil (at_key child w (get j fs)) (diff_fields p path fs gs)
          (rw there (diff_value_refl child w first))
          (diff_fields_refl path fs gs rest (λ k v found. entries k v (elim (Bool-cases (j == k)) [
            | inl same ↦ ground (arith, found, get_below j gs below, (eq_iff j k).0 same)
            | inr other ↦ ground (arith, other, found)
          ])))
