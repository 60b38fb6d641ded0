-- ===== src/Http/Bodies.antt =====
-- The bodies and the query that the handlers receive, and what they become: payloads, metadata, side
-- effects. A `HashMap` of texts is the list of its entries, in the order in which it is iterated.
use attow_nexus.Prelude.Exec.{Exec, pure, ◌>>=◌}
use attow_nexus.Prelude.{ℕ, String, Bool, false, Option, none, some, List, [], ◌∷◌}
use attow_nexus.Platform.{Platform}
use attow_nexus.Json.{Value, Fields, string, object, end, field}
use attow_nexus.Proto.{Payload, Metadata, ExternalSideEffect}
use attow_nexus.Service.State.{App, tick}
use attow_nexus.Service.Commits.{json_payload}
use attow_nexus.Ledger.Rollback.{new_id}

pub record RegisterAgentBody : Type 0 where
  pub agent_id : String
  pub run_id : String
  pub thread_id : Option String
  pub framework : Option String
  pub language : Option String
  pub capabilities : List String
  pub metadata : List (String × String)

pub record PublishDeltaBody : Type 0 where
  pub channel : String
  pub agent_id : String
  pub run_id : String
  pub thread_id : Option String
  pub delta : Value
  pub durable : Bool
  pub tags : List String
  pub summary : Option String
  pub objective : Option String
  pub logical_clock : Option ℕ
  pub parent_commit_ids : List String
  pub metadata : List (String × String)

pub record SideEffectBody : Type 0 where
  pub side_effect_id : Option String
  pub kind : String
  pub description : Option String
  pub target : Option String
  pub payload_summary : Option String
  pub reversible : Option Bool
  pub compensating_action_available : Option Bool

pub record CheckpointBody : Type 0 where
  pub agent_id : String
  pub run_id : String
  pub thread_id : Option String
  pub channel : String
  pub state : Value
  pub summary : Option String
  pub objective : Option String
  pub tags : List String
  pub parent_commit_ids : List String
  pub metadata : List (String × String)
  pub external_side_effects : Option (List SideEffectBody)

pub record DiffQuery : Type 0 where
  pub from : String
  pub to : String
  pub from_nearest_common_ancestor : Option Bool

pub record ReplayBody : Type 0 where
  pub commit_id : String
  pub mode : Option String
  pub confirm_reexecute_tools : Option Bool

pub record ForkBody : Type 0 where
  pub source_commit_id : String
  pub new_run_id : Option String

pub record RollbackBody : Type 0 where
  pub head_commit_id : String
  pub target_commit_id : String
  pub force : Option Bool

-- `unwrap_or`
abbrev pub unwrap_or : {A : Type 0} → A → Option A → A
unwrap_or d none = d
unwrap_or d (some a) = a

-- `metadata_from_map`
pub metadata_from_map : List (String × String) → Metadata
metadata_from_map map = map

module _ (p : Platform) where
  -- A `serde_json::Value` always serialises, so the branch of an error is not reached.
  pub payload_from_json : Value → Payload
  unfolding json_payload
  payload_from_json value = json_payload p (p.to_vec value)

  entry_text : Value → String
  entry_text (string text) = text
  entry_text value = p.to_json_text value

  entries : Fields → Metadata
  unfolding entry_text
  entries end = []
  entries (field key value fs) = (key, entry_text value) ∷ entries fs

  pub metadata_from_value : Value → Metadata
  unfolding entries
  metadata_from_value (object fs) = entries fs
  metadata_from_value _ = []

  unfoldable pub effect_of : SideEffectBody → String → ℕ → ExternalSideEffect
  effect_of body id at = record {
    side_effect_id = id;
    kind = body.kind;
    description = unwrap_or "" body.description;
    target = unwrap_or "" body.target;
    payload_summary = unwrap_or "" body.payload_summary;
    occurred_at = some (p.now at);
    reversible = unwrap_or false body.reversible;
    compensating_action_available = unwrap_or false body.compensating_action_available;
    metadata = none;
  }

  module _ {Chan : Type 0} where
    unfoldable pub effect_id : Option String → Exec (App Chan) String
    effect_id none = do n ← tick; pure (new_id p "effect" n)
    effect_id (some id) = pure id

    unfoldable pub into_proto : SideEffectBody → Exec (App Chan) ExternalSideEffect
    unfolding effect_id
    into_proto body = do id ← effect_id body.side_effect_id; at ← tick; pure (effect_of body id at)

    unfoldable pub side_effects : List SideEffectBody → Exec (App Chan) (List ExternalSideEffect)
    side_effects [] = pure []
    side_effects (body ∷ rest) = do
      effect ← into_proto body
      effects ← side_effects rest
      pure (effect ∷ effects)
