-- ===== src/Http/Events/Laws.antt =====
-- On `UniversalEventBody::try_from_value` of daemon/src/http/api.rs: an event, described field by field.
use attow_nexus.Prelude.{String, ◌≡◌, refl, ◌∙◌, ap, subst, ◌↔◌, Bool, some, ◌==◌, eq_iff, contains}
use attow_nexus.Json.{Value, Fields, null, bool, number, string, array, object, get}
use attow_nexus.Http.Reply.{reply}
use attow_nexus.Http.Events.{
  UniversalEventBody, channel_re, frameworks, event_types, required_string, require, required_id,
  optional_string_array, is_timestamp, metadata_of, from_object, try_from_value,
}
use attow_nexus.Http.Events.Spec.{
  IsEvent, inverse, require_iff, array_iff, timestamp_iff, metadata_iff, required_string_iff,
  reply_inj, id_iff,
}

module _ (is_match : String → String → Bool) where
  describes :
      (obj : Fields) (body : UniversalEventBody)
      → from_object is_match obj ≡ reply body
      → IsEvent is_match obj body
  unfolding from_object
  describes obj body h =
      let (version, e1, h1) = inverse (required_string obj "schema_version" _) _ body h in
      let (_, e2, h2) = inverse (require (version == "nexus.universal.v1") _) _ body h1 in
      let (run_id, e3, h3) = inverse (required_id is_match obj "run_id") _ body h2 in
      let (thread_id, e4, h4) = inverse (required_id is_match obj "thread_id") _ body h3 in
      let (agent_id, e5, h5) = inverse (required_id is_match obj "agent_id") _ body h4 in
      let (event_id, e6, h6) = inverse (required_id is_match obj "event_id") _ body h5 in
      let (framework, e7, h7) = inverse (required_string obj "framework" _) _ body h6 in
      let (_, e8, h8) = inverse (require (contains framework frameworks) _) _ body h7 in
      let (event_type, e9, h9) = inverse (required_string obj "event_type" _) _ body h8 in
      let (_, e10, h10) = inverse (require (contains event_type event_types) _) _ body h9 in
      let (channel, e11, h11) = inverse (required_string obj "channel" _) _ body h10 in
      let (_, e12, h12) = inverse (require (is_match channel_re channel) _) _ body h11 in
      let (_, e13, h13) = inverse (require (is_timestamp (get "timestamp_ms" obj)) _) _ body h12 in
      let (tags, e14, h14) = inverse (optional_string_array (get "tags" obj) _) _ body h13 in
      let (parents, e15, h15) =
        inverse (optional_string_array (get "parent_commit_ids" obj) _) _ body h14 in
      let (metadata, e16, h16) = inverse (metadata_of (get "metadata" obj)) _ body h15 in
      subst (IsEvent is_match obj) (reply_inj h16) (record {
        version =
            ((required_string_iff obj "schema_version" _ version).0 e1).0
            ∙ ap (λ t. some (string t))
                ((eq_iff version "nexus.universal.v1").0 ((require_iff _ _).0 e2));
        run = (id_iff is_match obj "run_id" run_id).0 e3;
        thread = (id_iff is_match obj "thread_id" thread_id).0 e4;
        agent = (id_iff is_match obj "agent_id" agent_id).0 e5;
        event =
            let (text, matched) = (id_iff is_match obj "event_id" event_id).0 e6 in
            (event_id, text, matched);
        framework =
            ((required_string_iff obj "framework" _ framework).0 e7, (require_iff _ _).0 e8);
        event_type =
            ((required_string_iff obj "event_type" _ event_type).0 e9, (require_iff _ _).0 e10);
        channel = ((required_string_iff obj "channel" _ channel).0 e11, (require_iff _ _).0 e12);
        timestamp = (timestamp_iff (get "timestamp_ms" obj)).0 ((require_iff _ _).0 e13);
        tags = (array_iff (get "tags" obj) _ tags).0 e14;
        parents = (array_iff (get "parent_commit_ids" obj) _ parents).0 e15;
        metadata = (metadata_iff (get "metadata" obj) metadata).0 e16;
      })

  accepted :
      (obj : Fields) (body : UniversalEventBody)
      → IsEvent is_match obj body
      → from_object is_match obj ≡ reply body
  unfolding from_object
  accepted obj body d =
      rw
        (
          (required_string_iff obj "schema_version" "UniversalAgentEvent.schema_version"
                "nexus.universal.v1").1
              (d.version, refl),
          require,
          (id_iff is_match obj "run_id" body.run_id).1 d.run,
          (id_iff is_match obj "thread_id" body.thread_id).1 d.thread,
          (id_iff is_match obj "agent_id" body.agent_id).1 d.agent,
          (id_iff is_match obj "event_id" d.event.0).1 (d.event.1, d.event.2),
          (required_string_iff obj "framework" "UniversalAgentEvent.framework" body.framework).1
              d.framework.0,
          d.framework.1,
          (required_string_iff obj "event_type" "UniversalAgentEvent.event_type" body.event_type).1
              d.event_type.0,
          d.event_type.1,
          (required_string_iff obj "channel" "UniversalAgentEvent.channel" body.channel).1
              d.channel.0,
          d.channel.1,
          (timestamp_iff (get "timestamp_ms" obj)).1 d.timestamp,
          (array_iff (get "tags" obj) "tags" body.tags).1 d.tags,
          (array_iff (get "parent_commit_ids" obj) "parent_commit_ids" body.parent_commit_ids).1
              d.parents,
          (metadata_iff (get "metadata" obj) body.metadata).1 d.metadata,
        )
        refl

-- A value is accepted as a universal event, with a body, exactly when it is an object that has the version,
-- identifiers, framework, event type, channel and timestamp that the daemon accepts, its tags, parent ids
-- and metadata, where they are there, are of their kind, and the body is what they say, with empty ones
-- for those that are not there. Other fields do not matter.
pub try_from_value_iff :
    (is_match : String → String → Bool) (v : Value) (body : UniversalEventBody)
    → (try_from_value is_match v ≡ reply body)
      ↔ ((obj : Fields) × (v ≡ object obj) × IsEvent is_match obj body)
unfolding try_from_value
try_from_value_iff is_match null body = (λ h. cc, λ (obj, e, d). cc)
try_from_value_iff is_match (bool b) body = (λ h. cc, λ (obj, e, d). cc)
try_from_value_iff is_match (number n) body = (λ h. cc, λ (obj, e, d). cc)
try_from_value_iff is_match (string t) body = (λ h. cc, λ (obj, e, d). cc)
try_from_value_iff is_match (array items) body = (λ h. cc, λ (obj, e, d). cc)
try_from_value_iff is_match (object fs) body = (
  λ h. (fs, refl, describes is_match fs body h),
  λ (obj, e, d).
      let same : obj ≡ fs = cc in
      accepted is_match fs body (subst (λ o. IsEvent is_match o body) same d),
)
