-- ===== src/Redaction.antt =====
-- daemon/src/security/redaction.rs: secrets are replaced by a marker before anything is stored or
-- broadcast. A function returns the new value and the findings that it adds, in order.
pub mod Laws
mod Tests
use Prim.Native.Char.{code}
use attow_nexus.Prelude.{
  ℕ, zero, suc, ◌+◌, ◌-◌, String, Bool, true, false, ◌&&◌, ◌||◌, not, Option, none, some, List, [],
  ◌∷◌, ◌++◌, map, ◌==◌, eqb, ltb, leb, if◌then◌else◌, length, is_empty, any, concat, to_string,
}
use attow_nexus.Platform.{Platform}
use attow_nexus.Json.{
  Value, Items, Fields, null, bool, number, string, array, object, nil, cons, end, field,
}
use attow_nexus.Proto.{
  ProstValue, ProstFields, ProstItems, absent, null_value, number_value, string_value, bool_value,
  struct_value, list_value, no_field, prost_field, no_item, item, PayloadEncoding, unspecified,
  protobuf_struct, json, msgpack, cbor, text, bytes, encoding_of, Payload, RedactionFinding,
  RedactionReport,
}

abbrev pub marker : String
marker = "[REDACTED]"

unfoldable pub finding : String → String → RedactionFinding
finding path kind = record { field_path = path; redaction_type = kind; replacement_marker = marker }

-- The code points of a text.
abbrev pub codes : String → List ℕ
codes String.[] = []
codes (String.◌∷◌ c s) = code c ∷ codes s

-- `to_ascii_lowercase`
lower : ℕ → ℕ
lower c = if leb b'A' c && leb c b'Z' then c + 32 else c

starts : List ℕ → List ℕ → Bool
starts [] s = true
starts (c ∷ cs) [] = false
starts (c ∷ cs) (d ∷ s) = eqb c d && starts cs s

-- `key.contains(needle)`
has_infix : List ℕ → List ℕ → Bool
unfolding starts
has_infix needle [] = is_empty needle
has_infix needle (c ∷ s) = starts needle (c ∷ s) || has_infix needle s

abbrev pub secret_names : List String
secret_names =
    "password" ∷ "token" ∷ "api_key" ∷ "apikey" ∷ "secret" ∷ "private_key" ∷ "access_token"
    ∷ "refresh_token" ∷ []

pub secret_key_name : String → Bool
unfolding lower has_infix
secret_key_name key = any (λ needle. has_infix (codes needle) (map lower (codes key))) secret_names

-- the names and the sources of the regular expressions, in the order in which they are applied
abbrev pub patterns : List (String × String)
patterns =
    ("bearer_token", "(?i)Bearer\\s+[A-Za-z0-9._\\-]+")
    ∷ ("pem_block", "-----BEGIN [A-Z ]+-----[\\s\\S]+?-----END [A-Z ]+-----")
    ∷ ("aws_access_key", "\\b(AKIA|ASIA)[0-9A-Z]{16}\\b")
    ∷ ("github_token", "\\bgh[pousr]_[A-Za-z0-9_]{20,}\\b")
    ∷ ("openai_token", "\\bsk-[A-Za-z0-9_\\-]{20,}\\b")
    ∷ ("anthropic_token", "\\bsk-ant-[A-Za-z0-9_\\-]{20,}\\b")
    ∷ ("jwt", "\\beyJ[A-Za-z0-9_\\-]+\\.[A-Za-z0-9_\\-]+\\.[A-Za-z0-9_\\-]+\\b")
    ∷ ("database_url_password", "(?i)\\b[a-z][a-z0-9+.-]*://[^:\\s/]+:[^@\\s]+@")
    ∷ []

abbrev pub index_path : String → ℕ → String
index_path path idx = concat (path ∷ "[" ∷ to_string idx ∷ "]" ∷ [])

abbrev pub key_path : String → String → String
key_path path key = concat (path ∷ "." ∷ key ∷ [])

module _ (p : Platform) where
  -- The loop of `redact_text` over the patterns.
  pub redact_with : List (String × String) → String → String → String × List RedactionFinding
  redact_with [] path output = (output, [])
  redact_with ((name, regex) ∷ rest) path output =
      let replaced = p.replace_all regex output marker in
      let (final, found) =
        redact_with rest path (if replaced == output then output else replaced) in
      (final, (if replaced == output then [] else finding path name ∷ []) ++ found)

  pub redact_text : String → String → String × List RedactionFinding
  redact_text path s = redact_with patterns path s

  mutual
    pub redact_json : String → Value → Value × List RedactionFinding
    redact_json path (object fs) =
        let (fs', found) = redact_json_object path fs in (object fs', found)
    redact_json path (array items) =
        let (items', found) = redact_items path zero items in (array items', found)
    redact_json path (string s) =
        let (replacement, found) = redact_text path s in (string replacement, found)
    redact_json path value = (value, [])

    pub redact_items : String → ℕ → Items → Items × List RedactionFinding
    redact_items path idx nil = (nil, [])
    redact_items path idx (cons v items) =
        let (v', here) = redact_json (index_path path idx) v in
        let (items', found) = redact_items path (suc idx) items in (cons v' items', here ++ found)

    pub redact_json_object : String → Fields → Fields × List RedactionFinding
    redact_json_object path end = (end, [])
    redact_json_object path (field key value fs) =
        let (value', here) = redact_json (key_path path key) value in
        let (fs', found) = redact_json_object path fs in
        if secret_key_name key
        then (field key (string marker) fs', finding (key_path path key) "secret_key" ∷ found)
        else (field key value' fs', here ++ found)

  mutual
    pub redact_prost_value : String → ProstValue → ProstValue × List RedactionFinding
    redact_prost_value path (string_value s) =
        let (replacement, found) = redact_text path s in (string_value replacement, found)
    redact_prost_value path (struct_value inner) =
        let (inner', found) = redact_struct path inner in (struct_value inner', found)
    redact_prost_value path (list_value values) =
        let (values', found) = redact_values path zero values in (list_value values', found)
    redact_prost_value path value = (value, [])

    pub redact_struct : String → ProstFields → ProstFields × List RedactionFinding
    redact_struct path no_field = (no_field, [])
    redact_struct path (prost_field key value fs) =
        let (value', here) = redact_prost_value (key_path path key) value in
        let (fs', found) = redact_struct path fs in
        if secret_key_name key
        then (
          prost_field key (string_value marker) fs',
          finding (key_path path key) "secret_key" ∷ found,
        )
        else (prost_field key value' fs', here ++ found)

    pub redact_values : String → ℕ → ProstItems → ProstItems × List RedactionFinding
    redact_values path idx no_item = (no_item, [])
    redact_values path idx (item v items) =
        let (v', here) = redact_prost_value (index_path path idx) v in
        let (items', found) = redact_values path (suc idx) items in (item v' items', here ++ found)

  -- The content of the payload is replaced, with its size and its hash.
  with_content : Payload → List ℕ → Payload
  with_content payload content = record payload {
    content = content;
    size_bytes = length content;
    content_hash = p.blake3_hex content;
  }

  redact_content : PayloadEncoding → Payload → Payload × List RedactionFinding
  unfolding with_content
  redact_content json payload = elim (p.from_slice payload.content) [
    | none ↦ (payload, [])
    | some value ↦
        let (value', found) = redact_json "$" value in
        (with_content payload (p.to_vec value'), found)
  ]
  redact_content text payload = elim (p.from_utf8 payload.content) [
    | none ↦ (payload, [])
    | some s ↦
        let (redacted, found) = redact_text "$" s in
        (with_content payload (p.as_bytes redacted), found)
  ]
  redact_content _ payload = (payload, [])

  redact_struct_data : Option ProstFields → Option ProstFields × List RedactionFinding
  redact_struct_data none = (none, [])
  redact_struct_data (some fields) =
      let (fields', found) = redact_struct "$" fields in (some fields', found)

  pub redact_payload : Payload → Payload × RedactionReport
  unfolding redact_content redact_struct_data
  redact_payload payload =
      let (struct_data, in_struct) = redact_struct_data payload.struct_data in
      let (payload', in_content) =
        redact_content (encoding_of payload.encoding)
          (record payload { struct_data = struct_data }) in
      let findings = in_struct ++ in_content in
      (payload', record { findings = findings; redacted = not (is_empty findings) })
