-- ===== src/Service/Publish/Denied.antt =====
-- On `ensure_channel_permission` in the writes of daemon/src/grpc/service.rs.
use attow_nexus.Prelude.{
  ℕ, some, ◌≡◌, refl, inl, inr, String, ◌<>◌, true, Bool-cases, err, lookup, or_nil, contains, ap,
  sym, ◌∙◌, is_clear, has_part, has_part-append, has_part_of_prefix, has_prefix_iff, append_append,
}
use attow_nexus.Platform.{Platform}
use attow_nexus.Bus.Pattern.{Covers}
use attow_nexus.Bus.State.{Mpsc}
use attow_nexus.Auth.{channel_write, channel_checkpoint, is_allowed}
use attow_nexus.Auth.Laws.{is_allowed-Covers}
use attow_nexus.Proto.Messages.{PublishDeltaRequest, StateDelta, CheckpointRequest}
use attow_nexus.Service.State.{App}
use attow_nexus.Service.Commits.{ensure_channel_permission}
use attow_nexus.Service.Commits.Normalize.{normalize_delta-IsHarmless}
use attow_nexus.Service.Publish.{publish_delta_inner, checkpoint_inner}

-- what the search in the message of a denial finds, for a scope that begins with the kind
pub denied_message :
    (kind channel : String)
    → is_clear "not found" ("permission denied for " <> kind) ≡ true
    → (has_part "not found" ("permission denied for " <> (kind <> channel))
        ≡ has_part "not found" channel)
      × (has_part "permission denied" ("permission denied for " <> (kind <> channel)) ≡ true)
denied_message kind channel clear = (
  ap (has_part "not found") (sym (append_append "permission denied for " kind channel))
      ∙ has_part-append "not found" ("permission denied for " <> kind) channel clear,
  has_part_of_prefix "permission denied" ("permission denied for " <> (kind <> channel)) (
      (has_prefix_iff "permission denied" ("permission denied for " <> (kind <> channel))).1 (
        " for " <> (kind <> channel),
        append_append "permission denied" " for " (kind <> channel),
      )),
)

module _ {Chan : Type 0} where
  -- no scope of the agent covers what is required
  abbrev pub IsDenied : App Chan → String → String → Type 0
  IsDenied s agent required =
      (scope : String)
      → contains scope (or_nil (lookup agent s.grants)) ≡ true
      → ¬ Covers scope required

  ensure_channel_permission_denied :
      (p : Platform) (agent required : String) (s : App Chan)
      → s.config.require_auth ≡ true
      → IsDenied s agent required
      → ensure_channel_permission p agent required s
        ≡ (err ("permission denied for " <> required), s)
  unfolding ensure_channel_permission
  ensure_channel_permission_denied p agent required s auth denied =
      elim (Bool-cases (is_allowed s.config (or_nil (lookup agent s.grants)) required)) [
        | inl allowed ↦
            let (scope, on, covers) =
              (is_allowed-Covers s.config (or_nil (lookup agent s.grants)) required auth).0
                allowed in
            absurd (denied scope on covers)
        | inr refused ↦ rw (ensure_channel_permission, refused) (rw auth refl)
      ]

  module _ (p : Platform) (mpsc : Mpsc Chan) (version : String) where
    -- A checkpoint that no scope of its agent covers is refused, and nothing has changed.
    pub checkpoint_denied :
        (request : CheckpointRequest) (s : App Chan)
        → s.config.require_auth ≡ true
        → IsDenied s request.agent_id (channel_checkpoint request.channel)
        → checkpoint_inner p mpsc version request s
          ≡ (err ("permission denied for " <> channel_checkpoint request.channel), s)
    unfolding checkpoint_inner
    checkpoint_denied request s auth denied =
        rw
          (ensure_channel_permission_denied p request.agent_id (channel_checkpoint request.channel)
            s auth denied)
          refl

    -- A publication that no scope of its agent covers is refused, and nothing has changed but the count of
    -- identifiers and clock readings.
    pub publish_denied :
        (request : PublishDeltaRequest) (delta : StateDelta) (s : App Chan)
        → request.delta ≡ some delta
        → s.config.require_auth ≡ true
        → IsDenied s delta.agent_id (channel_write delta.channel)
        → (n : ℕ) × (publish_delta_inner p mpsc version request s ≡ (
          err ("permission denied for " <> channel_write delta.channel),
          record s { ticks = n },
        ))
    unfolding publish_delta_inner
    publish_denied request delta s given auth denied =
        let (delta', n, normalized, agent, channel, durable) =
          normalize_delta-IsHarmless p delta s in
        let s' : App Chan = record s { ticks = n } in
        let denied' : IsDenied s' delta'.agent_id (channel_write delta'.channel) =
          rw (agent, channel) denied in
        let refused =
          ensure_channel_permission_denied p delta'.agent_id (channel_write delta'.channel) s' auth
            denied' in
        (n, rw given (rw normalized (rw refused (rw channel refl))))
