-- ===== src/Tests/Live.antt =====
-- Examples for the bus, the loop detector, tokens, scopes, permissions and the network policy.
use attow_nexus.Prelude.{
  ◌≤◌, ◌≡◌, refl, sym, ◌∙◌, ◌↔◌, inl, inr, String, ◌<>◌, true, none, some, List, [], ◌∷◌, eq_iff,
  text-cases, length, arith, contains, lookup, or_nil,
}
use attow_nexus.Proto.{LoopWarning}
use attow_nexus.Proto.Messages.{
  SubscriptionFilter, BroadcastDelta, CheckpointRequest, PublishDeltaRequest,
}
use attow_nexus.Metrics
use attow_nexus.Tests.Data.{platform, commit_a, config, mpsc, app, delta_of}
use attow_nexus.Bus.Pattern.{channel_pattern_matches, Covers, channel_pattern_matches-Covers}
use attow_nexus.Bus.State.{Bus, new}
use attow_nexus.Bus.Calls.{broadcast, subscribe}
use attow_nexus.Bus.Calls.Reach.{after_broadcast}
use attow_nexus.Bus.Runs.{Ran, fresh, subscribed, published, Ran-bound, lookup-broadcast-Ran}
use attow_nexus.LoopDetection
use attow_nexus.LoopDetection.{slide, repetitions, fingerprint, inspect}
use attow_nexus.LoopDetection.Window.{inspect_all, IsRepeated, none_yet, again, inspect-third}
use attow_nexus.Auth.{validate, granted}
use attow_nexus.Auth.Laws.{validate-granted}

channel_pattern_matches-Covers_example :
    (channel_pattern_matches "plans:*" "plans:draft" ≡ true) ↔ Covers "plans:*" "plans:draft"
channel_pattern_matches-Covers_example = channel_pattern_matches-Covers "plans:*" "plans:draft"

abbrev quiet : Bus (List BroadcastDelta)
quiet = new Metrics.default

abbrev watching : SubscriptionFilter
watching = record { channel_patterns = "plans*" ∷ []; durable_only = true; tags = [] }

abbrev watched : Bus (List BroadcastDelta)
watched = subscribe mpsc "viewer" watching 8 quiet

watched-Ran : Ran platform mpsc watched
watched-Ran = subscribed (fresh Metrics.default) "viewer" watching 8

Ran-bound_example : length (broadcast mpsc (delta_of true) "a" watched).recent_deltas ≤ 256
Ran-bound_example = Ran-bound platform mpsc (published watched-Ran (delta_of true) "a")

lookup-broadcast-Ran_example :
    lookup "viewer" (broadcast mpsc (delta_of true) "a" watched).subscriptions
    ≡ elim (lookup "viewer" watched.subscriptions) [
      | none ↦ none
      | some sub ↦
          after_broadcast mpsc
            (delta_of true)
            (record { delta = some (delta_of true); commit_id = "a"; redacted = true })
            sub
    ]
lookup-broadcast-Ran_example =
    lookup-broadcast-Ran platform mpsc watched-Ran (delta_of true) "a" "viewer"

twice : IsRepeated platform commit_a (commit_a ∷ commit_a ∷ [])
twice = again refl refl (again refl refl none_yet)

inspect-third_example :
    ((w : LoopWarning) × ((inspect platform commit_a
          (inspect_all platform (commit_a ∷ commit_a ∷ []) LoopDetection.default)).0
        ≡ some w))
    ↔ (2 ≤ length {A = _} (commit_a ∷ commit_a ∷ []))
inspect-third_example =
    inspect-third platform commit_a (commit_a ∷ commit_a ∷ []) twice (omega arith)

pub token_bytes :
    (s expected : String)
    → config.auth_token ≡ some expected
    → platform.as_bytes s ≡ platform.as_bytes expected
    → s ≡ expected
token_bytes s expected e h =
    let is_token : expected ≡ "token" = cc in
    elim (text-cases s "token") [
      | inl same ↦ same ∙ sym is_token
      | inr other ↦ ground (arith, other, (eq_iff expected "token").1 is_token)
    ]

validate-granted_example : (validate platform (some "Bearer token") config ≡ granted) ↔ (
    (expected : String) × (config.auth_token ≡ some expected)
    × (some "Bearer token" ≡ some ("Bearer " <> expected)))
validate-granted_example = validate-granted platform (some "Bearer token") config token_bytes refl

abbrev stranger : CheckpointRequest
stranger = record {
  agent_id = "stranger";
  run_id = "run";
  thread_id = "thread";
  channel = "plans";
  objective = "";
  payload = none;
  parent_commit_ids = [];
  tags = [];
  summary = "";
  metadata = none;
  tool_calls = [];
  tool_results = [];
  artifact_refs = [];
  external_side_effects = [];
}

pub no_grant :
    (scope : String)
    → contains scope (or_nil (lookup "stranger" app.grants)) ≡ true
    → contains scope [] ≡ true
unfolding lookup or_nil
no_grant scope on = on

abbrev pub unasked : PublishDeltaRequest
unasked = record {
  delta = some (record (delta_of true) { agent_id = "stranger" });
  objective = "";
  parent_commit_ids = [];
}
