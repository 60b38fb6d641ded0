-- ===== src/Ledger/Replay/Merge.antt =====
-- On `merge_value` of daemon/src/ledger/replay.rs.
use attow_nexus.Prelude.{
  ◌≡◌, refl, ◌∙◌, ap, subst, inl, inr, String, false, none, some, ◌==◌, eq_iff, arith, Bool-cases,
}
use attow_nexus.Json
use attow_nexus.Json.{Value, Fields, null, object, end, field, get, has_key}
use attow_nexus.Json.Laws.{get-insert, has_key-get}
use attow_nexus.Ledger.Replay.{merge_value, merge_fields, get_or_null}

-- no key stands twice, as in every map
abbrev pub IsDistinct : Fields → Type 0
IsDistinct end = Unit
IsDistinct (field k v fs) = (has_key k fs ≡ false) × IsDistinct fs

-- Merging an object whose keys are distinct: each key of the patch is merged with the target's value,
-- or with null, and every other key keeps its value.
pub get-merge_fields :
    (target patch : Fields) (key : String)
    → IsDistinct patch
    → get key (merge_fields target patch) ≡ elim (get key patch) [
      | none ↦ get key target
      | some v ↦ some (merge_value (get_or_null key target) v)
    ]
unfolding merge_fields get
get-merge_fields target end key d = refl
get-merge_fields target (field k v patch) key (fresh, d) =
    let merged = merge_value (get_or_null k target) v in
    let later = get-merge_fields (Json.insert k merged target) patch key d in
    let here = get-insert k key merged target in
    elim (Bool-cases (k == key)) [
      | inl same ↦
          let e = (eq_iff k key).0 same in
          let gone : get key patch ≡ none =
            ground (arith, has_key-get key patch, subst (λ z. has_key z patch ≡ false) e fresh) in
          (rw gone at later) ∙ (rw (here, same) (rw e refl))
      | inr other ↦
          let kept : get key (Json.insert k merged target) ≡ get key target =
            rw (here, other) refl in
          later
          ∙ (rw other (
              ap
                (λ x. elim (get key patch) [
                  | none ↦ x
                  | some w ↦ some (merge_value (elim x [ none ↦ null | some old ↦ old ]) w)
                ])
                kept))
    ]
