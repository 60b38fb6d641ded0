-- ===== src/Redaction/Laws.antt =====
-- On the JSON part of daemon/src/security/redaction.rs.
use attow_nexus.Prelude.{
  ℕ, suc, ◌≡◌, refl, ◌∙◌, ap, inl, inr, String, Bool, true, false, some, List, [], ◌∷◌, ◌++◌, ◌==◌,
  eq_iff, if◌then◌else◌, arith, Bool-cases,
}
use attow_nexus.Platform.{Platform}
use attow_nexus.Json.{
  Value, Items, Fields, null, bool, number, string, array, object, nil, cons, end, field, get,
  has_key,
}
use attow_nexus.Proto.{RedactionFinding}
use attow_nexus.Redaction.{
  marker, secret_key_name, redact_with, redact_text, redact_json, redact_items, redact_json_object,
  patterns, index_path, key_path, finding,
}

module _ (p : Platform) where
  -- Whatever stands under a secret key of an object is replaced by the marker.
  pub redact_json_object-get :
      (path key : String) (fs : Fields)
      → secret_key_name key ≡ true
      → has_key key fs ≡ true
      → get key (redact_json_object p path fs).0 ≡ some (string marker)
  unfolding redact_json_object get has_key
  redact_json_object-get path key end secret present = cc
  redact_json_object-get path key (field k v fs) secret present = elim (Bool-cases (k == key)) [
    | inl same ↦ ground (arith, same, eq_iff k key)
    | inr other ↦
        ground (arith, other, redact_json_object-get path key fs secret (ground (arith, other)))
  ]

  append_nil_parts : (xs ys : List RedactionFinding) → xs ++ ys ≡ [] → (xs ≡ []) × (ys ≡ [])
  append_nil_parts [] ys h = (refl, h)
  append_nil_parts (x ∷ xs) ys h = cc

  cons_nil {ℓ} : {A : Type ℓ} {x : RedactionFinding} {xs : List RedactionFinding} → x ∷ xs ≡ [] → A
  cons_nil h = cc

  redact_with_unchanged :
      (ps : List (String × String)) (path s : String)
      → (redact_with p ps path s).1 ≡ []
      → (redact_with p ps path s).0 ≡ s
  unfolding redact_with
  redact_with_unchanged [] path s h = refl
  redact_with_unchanged ((name, regex) ∷ ps) path s h =
      let next = if p.replace_all regex s marker == s then s else p.replace_all regex s marker in
      let (first, rest) =
        append_nil_parts (if p.replace_all regex s marker == s then [] else finding path name ∷ [])
          (redact_with p ps path next).1 h in
      redact_with_unchanged ps path next rest ∙ by_test (p.replace_all regex s marker == s) first
    where
      by_test :
          (same : Bool)
          → (if same then [] else finding path name ∷ []) ≡ []
          → (if same then s else p.replace_all regex s marker) ≡ s
      by_test true h = refl
      by_test false h = cc

  mutual
    unfolding redact_json redact_items redact_json_object redact_text

    json_unchanged :
        (v : Value) (path : String) → (redact_json p path v).1 ≡ [] → (redact_json p path v).0 ≡ v
    json_unchanged null path h = refl
    json_unchanged (bool b) path h = refl
    json_unchanged (number n) path h = refl
    json_unchanged (string s) path h = ap string (redact_with_unchanged patterns path s h)
    json_unchanged (array items) path h = ap array (items_unchanged items path 0 h)
    json_unchanged (object fs) path h = ap object (fields_unchanged fs path h)

    items_unchanged :
        (items : Items) (path : String) (idx : ℕ)
        → (redact_items p path idx items).1 ≡ []
        → (redact_items p path idx items).0 ≡ items
    items_unchanged nil path idx h = refl
    items_unchanged (cons v items) path idx h =
        let (here, there) =
          append_nil_parts (redact_json p (index_path path idx) v).1
            (redact_items p path (suc idx) items).1 h in
        rw (json_unchanged v (index_path path idx) here, items_unchanged items path (suc idx) there)
          refl

    fields_unchanged :
        (fs : Fields) (path : String)
        → (redact_json_object p path fs).1 ≡ []
        → (redact_json_object p path fs).0 ≡ fs
    fields_unchanged end path h = refl
    fields_unchanged (field key v fs) path h = elim (Bool-cases (secret_key_name key)) [
      | inl secret ↦ cons_nil (rw secret at h)
      | inr plain ↦
          let (here, there) =
            append_nil_parts (redact_json p (key_path path key) v).1
              (redact_json_object p path fs).1 (rw plain at h) in
          rw plain
            (rw (json_unchanged v (key_path path key) here, fields_unchanged fs path there) refl)
    ]

  -- A JSON value in which nothing was found is the value that came in.
  pub redact_json_unchanged :
      (path : String) (v : Value) → (redact_json p path v).1 ≡ [] → (redact_json p path v).0 ≡ v
  redact_json_unchanged path v h = json_unchanged v path h
