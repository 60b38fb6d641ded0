-- ===== src/Service/Commits/Normalize.antt =====
-- On `normalize_delta` of daemon/src/grpc/service.rs, which fills in defaults.
use attow_nexus.Prelude.{
  ℕ, false, ◌≡◌, refl, some, none, Option, [], ap, ◌==◌, Bool-cases, inl, inr, Result, ok,
  Option-cases, suc, ◌∙◌,
}
use attow_nexus.Prelude.Exec.{Exec, pure, ◌>>=◌}
use attow_nexus.Platform.{Platform}
use attow_nexus.Proto.{Payload, Timestamp, Metadata}
use attow_nexus.Proto.Messages.{StateDelta}
use attow_nexus.Ledger.Rollback.{new_id}
use attow_nexus.Service.State.{App, tick}
use attow_nexus.Service.Commits.{
  set_delta_id, set_wall_time, set_payload, set_metadata, normalize_delta, empty_json_payload,
}

set_payload_keeps :
    (p : Platform) (delta : StateDelta)
    → ((set_payload p delta).agent_id ≡ delta.agent_id)
      × ((set_payload p delta).channel ≡ delta.channel)
      × ((set_payload p delta).durable ≡ delta.durable)
unfolding set_payload
set_payload_keeps p delta = elim (Option-cases delta.payload) [
  | inl missing ↦ rw missing (refl, refl, refl)
  | inr (payload, given) ↦ rw given (refl, refl, refl)
]

set_metadata_keeps :
    (delta : StateDelta)
    → ((set_metadata delta).agent_id ≡ delta.agent_id)
      × ((set_metadata delta).channel ≡ delta.channel)
      × ((set_metadata delta).durable ≡ delta.durable)
unfolding set_metadata
set_metadata_keeps delta = elim (Option-cases delta.metadata) [
  | inl missing ↦ rw missing (refl, refl, refl)
  | inr (metadata, given) ↦ rw given (refl, refl, refl)
]

module _ (p : Platform) {Chan : Type 0} where
  -- a step gives a delta of the same agent, channel and durability, and takes some identifiers
  abbrev pub IsHarmless : StateDelta → App Chan → Result StateDelta × App Chan → Type 0
  IsHarmless delta s after =
      (delta' : StateDelta) × (n : ℕ) × (after ≡ (ok delta', record s { ticks = n }))
      × (delta'.agent_id ≡ delta.agent_id)
      × (delta'.channel ≡ delta.channel)
      × (delta'.durable ≡ delta.durable)

  set_delta_id-IsHarmless :
      (delta : StateDelta) (s : App Chan) → IsHarmless delta s (set_delta_id p delta s)
  unfolding set_delta_id
  set_delta_id-IsHarmless delta s = elim (Bool-cases (delta.delta_id == "")) [
    | inl unnamed ↦ (
      record delta { delta_id = new_id p "delta" s.ticks },
      suc s.ticks,
      rw unnamed refl,
      refl,
      refl,
      refl,
    )
    | inr named ↦ (delta, s.ticks, rw named refl, refl, refl, refl)
  ]

  set_wall_time-IsHarmless :
      (delta : StateDelta) (s : App Chan) → IsHarmless delta s (set_wall_time p delta s)
  unfolding set_wall_time
  set_wall_time-IsHarmless delta s = elim (Option-cases delta.wall_time) [
    | inl missing ↦ (
      record delta { wall_time = some (p.now s.ticks) },
      suc s.ticks,
      rw missing refl,
      refl,
      refl,
      refl,
    )
    | inr (at, given) ↦ (delta, s.ticks, rw given refl, refl, refl, refl)
  ]

  pub normalize_delta-IsHarmless :
      (delta : StateDelta) (s : App Chan) → IsHarmless delta s (normalize_delta p delta s)
  unfolding normalize_delta
  normalize_delta-IsHarmless delta s =
      let (named, n, first, agent_a, channel_a, durable_a) = set_delta_id-IsHarmless delta s in
      let s' : App Chan = record s { ticks = n } in
      let (timed, k, second, agent_b, channel_b, durable_b) = set_wall_time-IsHarmless named s' in
      let (agent_c, channel_c, durable_c) = set_payload_keeps p timed in
      let (agent_d, channel_d, durable_d) = set_metadata_keeps (set_payload p timed) in
      (
        set_metadata (set_payload p timed),
        k,
        rw first (rw second refl),
        agent_d ∙ (agent_c ∙ (agent_b ∙ agent_a)),
        channel_d ∙ (channel_c ∙ (channel_b ∙ channel_a)),
        durable_d ∙ (durable_c ∙ (durable_b ∙ durable_a)),
      )

-- A delta with all that `normalize_delta` would fill in.
pub record IsComplete (delta : StateDelta) : Type 0 where
  pub named : (delta.delta_id == "") ≡ false
  pub timed : (at : Timestamp) × (delta.wall_time ≡ some at)
  pub loaded : (payload : Payload) × (delta.payload ≡ some payload)
  pub described : (metadata : Metadata) × (delta.metadata ≡ some metadata)

module _ (p : Platform) {Chan : Type 0} where
  set_delta_id-IsComplete :
      (delta : StateDelta) (s : App Chan)
      → IsComplete delta
      → set_delta_id p delta s ≡ (ok delta, s)
  unfolding set_delta_id
  set_delta_id-IsComplete delta s c = rw c.named refl

  set_wall_time-IsComplete :
      (delta : StateDelta) (s : App Chan)
      → IsComplete delta
      → set_wall_time p delta s ≡ (ok delta, s)
  unfolding set_wall_time
  set_wall_time-IsComplete delta s c =
      ap
        (λ (w : Option Timestamp).
          elim w as (λ _. Exec (App Chan) StateDelta) [
            | none ↦ do n ← tick; pure (record delta { wall_time = some (p.now n) })
            | some _ ↦ pure delta
          ]
            s)
        c.timed.1

set_payload-IsComplete :
    (p : Platform) (delta : StateDelta) → IsComplete delta → set_payload p delta ≡ delta
unfolding set_payload
set_payload-IsComplete p delta c =
    ap
      (λ (w : Option Payload). elim w as (λ _. StateDelta) [
        | none ↦ record delta { payload = some (empty_json_payload p) }
        | some _ ↦ delta
      ])
      c.loaded.1

set_metadata-IsComplete : (delta : StateDelta) → IsComplete delta → set_metadata delta ≡ delta
unfolding set_metadata
set_metadata-IsComplete delta c =
    ap
      (λ (w : Option Metadata). elim w as (λ _. StateDelta) [
        | none ↦ record delta { metadata = some [] }
        | some _ ↦ delta
      ])
      c.described.1

-- It stays as it is, and no identifier is taken.
pub normalize_delta-IsComplete :
    (p : Platform) {Chan : Type 0} (delta : StateDelta) (s : App Chan)
    → IsComplete delta
    → normalize_delta p delta s ≡ (ok delta, s)
unfolding normalize_delta
normalize_delta-IsComplete p delta s c = rw (set_delta_id-IsComplete p delta s c) (
    rw (set_wall_time-IsComplete p delta s c)
      (rw (set_payload-IsComplete p delta c) (rw (set_metadata-IsComplete delta c) refl)))
