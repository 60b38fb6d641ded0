-- ===== src/Ledger/Diff/Alike.antt =====
-- On `diff_commits` of daemon/src/ledger/diff.rs as a whole.
use attow_nexus.Prelude.{
  ℕ, String, ◌≡◌, refl, ◌↔◌, true, Option, none, some, List, [], ◌∷◌, ◌==◌, eq_iff, if◌then◌else◌,
  length, texts_eq, arith,
}
use attow_nexus.Platform.{Platform}
use attow_nexus.Json
use attow_nexus.Json.{Value, string, insert}
use attow_nexus.Json.Order.{IsOrdered, AreOrdered}
use attow_nexus.Proto.{PayloadEncoding, json, text, encoding_of, Payload, Commit, DiffEntry}
use attow_nexus.Ledger.Diff.{
  natural, diff_value, decode_payload, payload_to_json, count_entry, diff_entries, diff_commits,
}
use attow_nexus.Ledger.Diff.Laws.{parts_nil, both_nil, diff_value_sound, diff_value_refl}

texts_eq_iff : (xs ys : List String) → (texts_eq xs ys ≡ true) ↔ (xs ≡ ys)
unfolding texts_eq
texts_eq_iff [] [] = (λ h. refl, λ h. refl)
texts_eq_iff [] (y ∷ ys) = (λ h. cc, λ h. cc)
texts_eq_iff (x ∷ xs) [] = (λ h. cc, λ h. cc)
texts_eq_iff (x ∷ xs) (y ∷ ys) = (
  λ h.
      let e = (texts_eq_iff xs ys).0 (ground arith) in let e' = (eq_iff x y).0 (ground arith) in cc,
  λ h.
      let e : xs ≡ ys = cc in
      let e' : x ≡ y = cc in ground (arith, (texts_eq_iff xs ys).1 e, (eq_iff x y).1 e'),
)

-- The parser keeps the keys of every object in their order.
pub record IsOrdering (p : Platform) : Type 0 where
  pub ordered : (bytes : List ℕ) (v : Value) → p.from_slice bytes ≡ some v → IsOrdered v

module _ (p : Platform) where
  count_entry_iff : (path : String) (m n : ℕ) → (count_entry p path m n ≡ []) ↔ (m ≡ n)
  unfolding count_entry
  count_entry_iff path m n = (λ h. ground (arith, h), λ h. ground arith)

  decode_payload-IsOrdered :
      (encoding : PayloadEncoding) (payload : Payload)
      → IsOrdering p
      → IsOrdered (decode_payload p encoding payload)
  unfolding decode_payload IsOrdered AreOrdered insert
  decode_payload-IsOrdered json payload o =
      by_found (p.from_slice payload.content) (o.ordered payload.content)
    where
      by_found :
          (found : Option Value)
          → ((v : Value) → found ≡ some v → IsOrdered v)
          → IsOrdered (elim found [
            | some value ↦ value
            | none ↦ Json.json (
                ("content_hash", string payload.content_hash)
                ∷ ("size_bytes", natural payload.size_bytes)
                ∷ [])
          ])
      by_found (some v) h = h v refl
      by_found none h = ((refl, tt), tt, (tt, tt, tt))
  decode_payload-IsOrdered text payload o = tt
  decode_payload-IsOrdered _ payload o = ((refl, (refl, tt)), tt, ((refl, tt), tt, (tt, tt, tt)))

  payload_to_json-IsOrdered :
      (payload : Option Payload) → IsOrdering p → IsOrdered (payload_to_json p payload)
  unfolding payload_to_json IsOrdered
  payload_to_json-IsOrdered none o = tt
  payload_to_json-IsOrdered (some payload) o =
      decode_payload-IsOrdered (encoding_of payload.encoding) payload o

  text_entry_iff : (a b : String) (e : DiffEntry) → ((if a == b then [] else e ∷ []) ≡ []) ↔ (a ≡ b)
  text_entry_iff a b e = (λ h. (eq_iff a b).0 (ground (arith, h)), λ h. rw ((eq_iff a b).1 h) refl)

  tags_entry_iff :
      (xs ys : List String) (e : DiffEntry)
      → ((if texts_eq xs ys then [] else e ∷ []) ≡ []) ↔ (xs ≡ ys)
  tags_entry_iff xs ys e =
      (λ h. (texts_eq_iff xs ys).0 (ground (arith, h)), λ h. rw ((texts_eq_iff xs ys).1 h) refl)

  -- What a comparison of two commits looks at.
  pub record IsAlike (from to : Commit) : Type 0 where
    pub state : payload_to_json p from.state_delta ≡ payload_to_json p to.state_delta
    pub summary : from.summary ≡ to.summary
    pub tags : from.tags ≡ to.tags
    pub tool_calls : length from.tool_calls ≡ length to.tool_calls
    pub tool_results : length from.tool_results ≡ length to.tool_results
    pub artifacts : length from.artifact_refs ≡ length to.artifact_refs
    pub side_effects : length from.external_side_effects ≡ length to.external_side_effects

  -- When the parser keeps the keys of objects in their order, a comparison finds no entry exactly when
  -- the two commits have the same payload as JSON, the same summary, the same tags in the same
  -- order, and equally many tool calls, tool results, artifacts and external side effects.
  -- Nothing else is compared, their metadata among it.
  pub diff_commits-IsAlike :
      (from to : Commit) → IsOrdering p → ((diff_commits p from to).entries ≡ []) ↔ IsAlike from to
  unfolding diff_commits diff_entries
  diff_commits-IsAlike from to o = (
    λ h.
        let (state, h1) = parts_nil _ _ h in
        let (summary, h2) = parts_nil _ _ h1 in
        let (tags, h3) = parts_nil _ _ h2 in
        let (calls, h4) = parts_nil _ _ h3 in
        let (results, h5) = parts_nil _ _ h4 in
        let (artifacts, effects) = parts_nil _ _ h5 in
        record {
          state =
              diff_value_sound p "$" (payload_to_json p from.state_delta)
                (payload_to_json p to.state_delta) (payload_to_json-IsOrdered from.state_delta o)
                (payload_to_json-IsOrdered to.state_delta o) state;
          summary = (text_entry_iff from.summary to.summary _).0 summary;
          tags = (tags_entry_iff from.tags to.tags _).0 tags;
          tool_calls = (count_entry_iff "tool_calls" _ _).0 calls;
          tool_results = (count_entry_iff "tool_results" _ _).0 results;
          artifacts = (count_entry_iff "artifacts" _ _).0 artifacts;
          side_effects = (count_entry_iff "external_side_effects" _ _).0 effects;
        },
    λ a. both_nil _ _ (same_state a.state) (
        both_nil _ _ ((text_entry_iff from.summary to.summary _).1 a.summary) (
          both_nil _ _ ((tags_entry_iff from.tags to.tags _).1 a.tags) (
            both_nil _ _ ((count_entry_iff "tool_calls" _ _).1 a.tool_calls) (
              both_nil _ _ ((count_entry_iff "tool_results" _ _).1 a.tool_results) (
                both_nil _ _ ((count_entry_iff "artifacts" _ _).1 a.artifacts)
                  ((count_entry_iff "external_side_effects" _ _).1 a.side_effects)))))),
  )
    where
      same_state :
          payload_to_json p from.state_delta ≡ payload_to_json p to.state_delta
          → diff_value p "$" (payload_to_json p from.state_delta) (payload_to_json p to.state_delta)
            ≡ []
      same_state e = rw (← e) (
          diff_value_refl p "$" (payload_to_json p from.state_delta)
            (payload_to_json-IsOrdered from.state_delta o))
