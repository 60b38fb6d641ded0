-- ===== src/Ledger/Diff.antt =====
-- daemon/src/ledger/diff.rs: the difference of two commits, entry by entry.
pub mod Laws
pub mod Alike
use attow_nexus.Prelude.{
  ℕ, String, ◌<>◌, Option, none, some, List, [], ◌∷◌, ◌++◌, ◌==◌, eqb, if◌then◌else◌, length,
  concat, to_string, texts_eq,
}
use attow_nexus.Platform.{Platform}
use attow_nexus.Json
use attow_nexus.Json.{
  Value, Fields, null, number, string, object, end, field, pos_int, get, has_key, value_eq,
}
use attow_nexus.Proto.{
  PayloadEncoding, json, text, encoding_of, Payload, Commit, DiffEntry, CommitDiff,
}

abbrev pub natural : ℕ → Value
natural n = number (pos_int n)

-- `entry`, with both sides serialised
unfoldable pub entry : String → String → String → String → DiffEntry
entry path change_type before after = record {
  path = path;
  change_type = change_type;
  before_json = before;
  after_json = after;
}

module _ (p : Platform) where
  decode_payload : PayloadEncoding → Payload → Value
  decode_payload json payload = elim (p.from_slice payload.content) [
    | some value ↦ value
    | none ↦ Json.json (
        ("content_hash", string payload.content_hash)
        ∷ ("size_bytes", natural payload.size_bytes)
        ∷ [])
  ]
  decode_payload text payload = string (p.from_utf8_lossy payload.content)
  decode_payload _ payload = Json.json (
      ("content_hash", string payload.content_hash)
      ∷ ("size_bytes", natural payload.size_bytes)
      ∷ ("artifact_ref", string payload.artifact_ref)
      ∷ [])

  unfoldable pub payload_to_json : Option Payload → Value
  unfolding decode_payload
  payload_to_json none = null
  payload_to_json (some payload) = decode_payload (encoding_of payload.encoding) payload

  changed : String → String → Value → Value → DiffEntry
  changed path kind before after = entry path kind (p.to_json_text before) (p.to_json_text after)

  -- The first loop of `diff_object`: the keys that are gone.
  pub removed : String → Fields → Fields → List DiffEntry
  unfolding changed
  removed path end after = []
  removed path (field key value before) after =
      let rest = removed path before after in
      if has_key key after
      then rest
      else changed (concat (path ∷ "." ∷ key ∷ [])) "removed" value null ∷ rest

  mutual
    unfolding changed

    pub diff_value : String → Value → Value → List DiffEntry
    diff_value path (object left) (object right) =
        removed path left right ++ diff_fields path left right
    diff_value path before after =
        if value_eq before after then [] else changed path "changed" before after ∷ []

    -- The second loop of `diff_object`.
    pub diff_fields : String → Fields → Fields → List DiffEntry
    diff_fields path before end = []
    diff_fields path before (field key value after) =
        let child = concat (path ∷ "." ∷ key ∷ []) in
        elim (get key before) [
          | some old ↦ diff_value child old value
          | none ↦ changed child "added" null value ∷ []
        ]
        ++ diff_fields path before after

  -- `if from.len() != to.len()`
  count_entry : String → ℕ → ℕ → List DiffEntry
  count_entry path before after =
      if eqb before after
      then []
      else entry path "changed" (p.to_json_text (natural before)) (p.to_json_text (natural after))
        ∷ []

  diff_entries : Commit → Commit → List DiffEntry
  unfolding count_entry
  diff_entries from to =
      diff_value "$" (payload_to_json from.state_delta) (payload_to_json to.state_delta)
      ++ ((if from.summary == to.summary
            then []
            else entry "summary" "changed" (p.to_json_text (string from.summary))
                (p.to_json_text (string to.summary))
              ∷ [])
          ++ ((if texts_eq from.tags to.tags
                then []
                else entry "tags" "changed" (p.tags_text from.tags) (p.tags_text to.tags) ∷ [])
              ++ (count_entry "tool_calls" (length from.tool_calls) (length to.tool_calls)
                  ++ (count_entry "tool_results" (length from.tool_results) (length to.tool_results)
                      ++ (count_entry "artifacts" (length from.artifact_refs)
                            (length to.artifact_refs)
                          ++ count_entry "external_side_effects" (length from.external_side_effects)
                              (length to.external_side_effects))))))

  human_summary : List DiffEntry → String
  human_summary [] = "No captured logical state changes."
  human_summary (e ∷ es) = to_string (length (e ∷ es)) <> " captured logical state change(s)."

  pub diff_commits : Commit → Commit → CommitDiff
  unfolding diff_entries human_summary
  diff_commits from to = record {
    from_commit_id = from.commit_id;
    to_commit_id = to.commit_id;
    entries = diff_entries from to;
    human_summary = human_summary (diff_entries from to);
  }
