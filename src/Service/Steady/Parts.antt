-- ===== src/Service/Steady/Parts.antt =====
-- The parts of a write but the persistence: none touches the graph or the table of commits.
use attow_nexus.Prelude.Exec.{pure, ◌>>=◌}
use attow_nexus.Prelude.{
  String, refl, inl, inr, Option, none, some, List, [], ltb, if◌then◌else◌, is_empty, length,
  lookup, or_nil, ok, Bool-cases,
}
use attow_nexus.Platform.{Platform}
use attow_nexus.Proto.{Payload, Commit, LoopWarning}
use attow_nexus.Proto.Messages.{StateDelta}
use attow_nexus.Auth.{is_allowed}
use attow_nexus.Bus.State.{Mpsc}
use attow_nexus.Ledger.Store.Heads.{get_head}
use attow_nexus.Ledger.Store.Artifacts.{put_artifact, append_loop_warning}
use attow_nexus.Service.State.{on_store}
use attow_nexus.Service.Commits.{
  redact_if, complete_payload, spill, handle_warning, detect, broadcast_loop_warning,
  normalize_delta, ensure_channel_permission, prepare_payload, resolve_parents, inspect_loop,
}
use attow_nexus.Service.Commits.Normalize.{normalize_delta-IsHarmless}
use attow_nexus.Service.Steady.{IsQuiet, IsQuiet-bind, IsQuiet-if, IsQuiet-on_store, IsSame-if}
use attow_nexus.Ledger.Store.Steady.{
  get_head-IsSteady, append_loop_warning-IsSteady, put_artifact-IsSteady,
}

module _ (p : Platform) {Chan : Type 0} where
  pub normalize_delta-IsQuiet :
      (delta : StateDelta) → IsQuiet (normalize_delta p {Chan = Chan} delta)
  normalize_delta-IsQuiet delta s h =
      let (delta', n, normalized, agent, channel, durable) = normalize_delta-IsHarmless p delta s in
      rw normalized (h, refl, refl)

  pub ensure_channel_permission-IsQuiet :
      (agent required : String) → IsQuiet (ensure_channel_permission p {Chan = Chan} agent required)
  unfolding ensure_channel_permission
  ensure_channel_permission-IsQuiet agent required s h = elim (Bool-cases s.config.require_auth) [
    | inr free ↦ rw (ensure_channel_permission, free) (h, refl, refl)
    | inl auth ↦ elim (Bool-cases (is_allowed s.config (or_nil (lookup agent s.grants)) required)) [
      | inl allowed ↦ rw (ensure_channel_permission, allowed) (rw auth (h, refl, refl))
      | inr denied ↦ rw (ensure_channel_permission, denied) (rw auth (h, refl, refl))
    ]
  ]

  pub resolve_parents-IsQuiet :
      (delta : StateDelta) (explicit : List String)
      → IsQuiet (resolve_parents p {Chan = Chan} delta explicit)
  unfolding resolve_parents
  resolve_parents-IsQuiet delta explicit =
      IsQuiet-if (is_empty explicit) _ _
        (IsQuiet-bind
          (on_store (get_head delta.run_id delta.thread_id delta.agent_id delta.channel)) _
          (IsQuiet-on_store (get_head delta.run_id delta.thread_id delta.agent_id delta.channel)
            (get_head-IsSteady p delta.run_id delta.thread_id delta.agent_id delta.channel))
          (λ head s h. (h, refl, refl)))
        (λ s h. (h, refl, refl))

  spill-IsQuiet : (payload : Payload) → IsQuiet (spill p {Chan = Chan} payload)
  unfolding spill
  spill-IsQuiet payload =
      IsQuiet-bind (on_store (put_artifact p payload.content "application/octet-stream")) _
        (IsQuiet-on_store (put_artifact p payload.content "application/octet-stream")
          (put_artifact-IsSteady p payload.content "application/octet-stream"))
        (λ artifact s h. (h, refl, refl))

  pub prepare_payload-IsQuiet :
      (found : Option Payload) → IsQuiet (prepare_payload p {Chan = Chan} found)
  unfolding prepare_payload
  prepare_payload-IsQuiet found s h =
      let payload = (redact_if p s.config.redaction_enabled (complete_payload p found)).0 in
      IsQuiet-bind
        (if ltb s.config.max_inline_payload_bytes (length payload.content)
          then spill p payload
          else pure (payload, []))
        _
        (IsQuiet-if (ltb s.config.max_inline_payload_bytes (length payload.content))
          (spill p payload) (pure (payload, [])) (spill-IsQuiet payload) (λ t g. (g, refl, refl)))
        (λ stored t g. (g, refl, refl)) s h

  module _ (mpsc : Mpsc Chan) where
    detect-IsQuiet : (c : Commit) → IsQuiet (detect p mpsc c)
    unfolding detect
    detect-IsQuiet c s h = (h, refl, refl)

    handle_warning-IsQuiet : (w : Option LoopWarning) → IsQuiet (handle_warning p mpsc w)
    unfolding handle_warning broadcast_loop_warning
    handle_warning-IsQuiet none s h = (h, refl, refl)
    handle_warning-IsQuiet (some w) s h =
        IsQuiet-bind (on_store (append_loop_warning p w)) _
          (IsQuiet-on_store (append_loop_warning p w) (append_loop_warning-IsSteady p w))
          (λ _ t g. (g, refl, refl)) s h

    pub inspect_loop-IsQuiet : (c : Commit) → IsQuiet (inspect_loop p mpsc c)
    unfolding inspect_loop
    inspect_loop-IsQuiet c s h =
        IsSame-if s.config.loop_detection_enabled s ((detect p mpsc c >>= handle_warning p mpsc) s)
          (ok tt, s)
          (IsQuiet-bind (detect p mpsc c) (handle_warning p mpsc) (detect-IsQuiet c)
            handle_warning-IsQuiet s h)
          (h, refl, refl)
