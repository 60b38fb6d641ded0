-- ===== src/Tests/Publishing.antt =====
-- An example of a durable publication.
use attow_nexus.Prelude.{
  ◌≡◌, refl, sym, ap, ◌∙◌, true, false, none, some, List, [], ◌∷◌, ok, lookup, or_nil, contains_key,
  take_text, ltb, length, strip_star,
}
use attow_nexus.Platform.{Platform}
use attow_nexus.Proto.{Payload, Commit}
use attow_nexus.Proto.Messages.{StateDelta, PublishDeltaRequest, BroadcastDelta}
use attow_nexus.Auth.{is_allowed, channel_write, scope_matches}
use attow_nexus.Dag.{append}
use attow_nexus.Dag.Tests.{dag_hash, hash_accepted}
use attow_nexus.Ledger.Commit.{from_delta}
use attow_nexus.Ledger.Store.Calls.{get_commit}
use attow_nexus.Ledger.Store.Heads.{get_head}
use attow_nexus.Service.State.{App}
use attow_nexus.Service.Commits.{complete_payload, redact_if}
use attow_nexus.Service.Commits.Normalize.{IsComplete}
use attow_nexus.Service.Publish.{publish_delta_inner}
use attow_nexus.Service.Publish.Parts.{commit_for, redacted}
use attow_nexus.Service.Publish.Stored.{publish_delta_inner-stores}
use attow_nexus.Tests.Data.{platform, app, config, delta_of, mpsc}

abbrev plan : Payload
plan = record {
  encoding = 2;
  content = b'{' ∷ b'}' ∷ [];
  struct_data = none;
  size_bytes = 2;
  content_hash = "";
  compressed = false;
  artifact_ref = "";
}

abbrev ready : StateDelta
ready = record (delta_of true) {
  wall_time = some (platform.now 0);
  payload = some plan;
  metadata = some [];
}

abbrev pub asked : PublishDeltaRequest
asked = record { delta = some ready; objective = "plan"; parent_commit_ids = "b" ∷ [] }

abbrev made : Commit
made = commit_for platform "0.1.0" false asked ready ("b" ∷ [])

-- the platform of the examples, with a codec for this commit
abbrev pub recorder : Platform
recorder = record platform { decode_commit = λ _. some made }

ready-IsComplete : IsComplete ready
ready-IsComplete = record {
  named = refl;
  timed = (platform.now 0, refl);
  loaded = (plan, refl);
  described = ([], refl);
}

-- a daemon without redaction
abbrev pub plain : App (List BroadcastDelta)
plain = record app { config = record config { redaction_enabled = false } }

allowed :
    is_allowed plain.config (or_nil (lookup "agent" plain.grants)) (channel_write "plans") ≡ true
unfolding is_allowed scope_matches channel_write lookup or_nil strip_star
allowed = refl

small : ltb 64 (length (redacted recorder false (some plan)).0.content) ≡ false
unfolding redact_if complete_payload
small = refl

made_here : commit_for recorder "0.1.0" false asked ready ("b" ∷ []) ≡ made
unfolding from_delta redact_if complete_payload
made_here = refl

named_hash : made.commit_id ≡ "c_hash"
unfolding from_delta take_text
named_hash = refl

name_here : (commit_for recorder "0.1.0" false asked ready ("b" ∷ [])).commit_id ≡ "c_hash"
name_here = ap (λ c. c.commit_id) made_here ∙ named_hash

accepted :
    append (commit_for recorder "0.1.0" false asked ready ("b" ∷ [])).commit_id ("b" ∷ []) plain.dag
    ≡ ok dag_hash
accepted = ap (λ id. append id ("b" ∷ []) plain.dag) name_here ∙ hash_accepted

publish_delta_inner-stores_example :
    let (result, after) = publish_delta_inner recorder mpsc "0.1.0" asked plain in
    let c = commit_for recorder "0.1.0" false asked ready ("b" ∷ []) in
    (result
      ≡ ok (record {
        delta_id = "delta";
        commit_id = c.commit_id;
        accepted = true;
        persisted = true;
        warning = "";
        redaction_report = some (redacted recorder false (some plan)).1;
      }))
    × ((get_commit recorder c.commit_id after.store).0 ≡ ok (some c))
    × ((get_head "run" "thread" "agent" "plans" after.store).0 ≡ ok (some c.commit_id))
    × (after.dag ≡ dag_hash)
    × (c.state_delta ≡ some (redacted recorder false (some plan)).0)
unfolding from_delta
publish_delta_inner-stores_example =
    publish_delta_inner-stores recorder mpsc "0.1.0" asked ready dag_hash plain refl refl
      ready-IsComplete refl allowed small accepted fresh codec
  where
    fresh :
        contains_key
          (commit_for recorder "0.1.0" false asked ready ("b" ∷ [])).commit_id
          plain.store.commits
        ≡ false
    fresh = ap (λ id. contains_key id plain.store.commits) name_here ∙ (unfold contains_key in refl)

    codec :
        recorder.decode_commit
          (recorder.encode_commit (commit_for recorder "0.1.0" false asked ready ("b" ∷ [])))
        ≡ some (commit_for recorder "0.1.0" false asked ready ("b" ∷ []))
    codec = ap some (sym made_here)
