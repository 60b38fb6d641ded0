-- ===== src/Bus/Calls/Delivery.antt =====
-- On `broadcast` of daemon/src/bus/mod.rs.
use attow_nexus.Prelude.{
  ◌≤◌, ◌≡◌, ◌≢◌, refl, ◌∙◌, ap, inl, inr, String, Bool, true, false, none, some, List, [], ◌∷◌, eqb,
  length, length-append, lookup, lookup-insert, eq_refl, arith, Bool-cases,
}
use attow_nexus.Proto.Messages.{StateDelta, BroadcastDelta}
use attow_nexus.Bus.State.{SendOutcome, sent, full, closed, Mpsc, ChannelState, DeltaInfo, Bus}
use attow_nexus.Bus.Calls.{
  pop_front, push_ring, delta_info, update_channel, push_recent, record_drop, set_sender, targets,
  settle, deliver, broadcast, snapshot, count_delta, record_delta, channel_or_new,
}

push_ring-bound :
    (recent : List DeltaInfo) (info : DeltaInfo)
    → length recent ≤ 256
    → length (push_ring recent info) ≤ 256
unfolding push_ring pop_front
push_ring-bound [] info h = omega arith
push_ring-bound (d ∷ ds) info h = elim (Bool-cases (eqb (length (d ∷ ds)) 256)) [
  | inl is_full ↦ rw is_full (omega (arith, length-append ds (info ∷ []), h))
  | inr room ↦ rw room (
      let below : length (d ∷ ds) ≢ 256 = ground (arith, room) in
      omega (arith, length-append ds (info ∷ []), h, below))
]

snapshot_of :
    {Chan : Type 0} (channel : String) (state : ChannelState) (b : Bus Chan)
    → lookup channel b.channels ≡ some state
    → (snapshot channel b).latest_payload
      ≡ elim state.latest [ none ↦ none | some delta ↦ delta.payload ]
unfolding snapshot
snapshot_of channel state b h = rw (snapshot, h) refl

module _ {Chan : Type 0} (mpsc : Mpsc Chan) where
  -- what the sends leave as it was
  settle_keeps :
      (durable : Bool) (message : BroadcastDelta) (id : String) (answer : SendOutcome × Chan)
      (b : Bus Chan)
      → ((settle mpsc durable message id answer b).channels ≡ b.channels)
        × ((settle mpsc durable message id answer b).recent_deltas ≡ b.recent_deltas)
  unfolding settle set_sender record_drop
  settle_keeps durable message id (sent, chan) b = (refl, refl)
  settle_keeps true message id (full, chan) b = (refl, refl)
  settle_keeps false message id (full, chan) b = (refl, refl)
  settle_keeps durable message id (closed, chan) b = (refl, refl)

  deliver_keeps :
      (durable : Bool) (message : BroadcastDelta) (subs : List (String × Chan)) (b : Bus Chan)
      → ((deliver mpsc durable message subs b).channels ≡ b.channels)
        × ((deliver mpsc durable message subs b).recent_deltas ≡ b.recent_deltas)
  unfolding deliver
  deliver_keeps durable message [] b = (refl, refl)
  deliver_keeps durable message ((id, chan) ∷ rest) b =
      let (x, y) = settle_keeps durable message id (mpsc.try_send message chan) b in
      let (u, v) =
        deliver_keeps durable message rest
          (settle mpsc durable message id (mpsc.try_send message chan) b) in
      (u ∙ x, v ∙ y)

  -- what a broadcast does to the ring
  pub recent_deltas-broadcast :
      (delta : StateDelta) (commit_id : String) (b : Bus Chan)
      → (broadcast mpsc delta commit_id b).recent_deltas
        ≡ push_ring b.recent_deltas (delta_info delta commit_id)
  unfolding broadcast push_recent update_channel
  recent_deltas-broadcast delta commit_id b =
      let message : BroadcastDelta = record {
        delta = some delta;
        commit_id = commit_id;
        redacted = true;
      } in
      let b' = push_recent delta commit_id (update_channel delta b) in
      (deliver_keeps delta.durable message (targets delta b'.subscriptions) b').1

  -- A broadcast keeps the list of recent deltas at 256 at most.
  pub broadcast-bound :
      (delta : StateDelta) (commit_id : String) (b : Bus Chan)
      → length b.recent_deltas ≤ 256
      → length (broadcast mpsc delta commit_id b).recent_deltas ≤ 256
  broadcast-bound delta commit_id b h =
      rw (recent_deltas-broadcast delta commit_id b)
        (push_ring-bound b.recent_deltas (delta_info delta commit_id) h)

  -- After a broadcast, whoever the subscribers are and whatever their queues answer, the snapshot of
  -- the channel shows the payload of the delta.
  pub snapshot-broadcast :
      (delta : StateDelta) (commit_id : String) (b : Bus Chan)
      → (snapshot delta.channel (broadcast mpsc delta commit_id b)).latest_payload ≡ delta.payload
  unfolding broadcast push_recent update_channel snapshot record_delta
  snapshot-broadcast delta commit_id b =
      let message : BroadcastDelta = record {
        delta = some delta;
        commit_id = commit_id;
        redacted = true;
      } in
      let b' = push_recent delta commit_id (update_channel delta b) in
      let state = record_delta delta (channel_or_new (lookup delta.channel b.channels)) in
      snapshot_of delta.channel state (broadcast mpsc delta commit_id b) (
        ap (lookup delta.channel)
          ((deliver_keeps delta.durable message (targets delta b'.subscriptions) b').0)
        ∙ (rw (lookup-insert delta.channel delta.channel state b.channels, eq_refl delta.channel)
            refl))

  settle_durable :
      (message : BroadcastDelta) (id : String) (answer : SendOutcome × Chan) (b : Bus Chan)
      → (settle mpsc true message id answer b).metrics ≡ b.metrics
  unfolding settle set_sender
  settle_durable message id (sent, chan) b = refl
  settle_durable message id (full, chan) b = refl
  settle_durable message id (closed, chan) b = refl

  deliver_durable :
      (message : BroadcastDelta) (subs : List (String × Chan)) (b : Bus Chan)
      → (deliver mpsc true message subs b).metrics ≡ b.metrics
  unfolding deliver
  deliver_durable message [] b = refl
  deliver_durable message ((id, chan) ∷ rest) b =
      deliver_durable message rest _ ∙ settle_durable message id (mpsc.try_send message chan) b

  deliver_if :
      (durable : Bool) (message : BroadcastDelta) (subs : List (String × Chan)) (b : Bus Chan)
      → durable ≡ true
      → (deliver mpsc durable message subs b).metrics ≡ b.metrics
  deliver_if true message subs b h = deliver_durable message subs b
  deliver_if false message subs b h = cc

  -- A durable delta is never counted as dropped.
  pub broadcast_durable :
      (delta : StateDelta) (commit_id : String) (b : Bus Chan)
      → delta.durable ≡ true
      → (broadcast mpsc delta commit_id b).metrics.dropped_ephemeral_total
        ≡ b.metrics.dropped_ephemeral_total
  unfolding broadcast count_delta push_recent update_channel
  broadcast_durable delta commit_id b h =
      let message : BroadcastDelta = record {
        delta = some delta;
        commit_id = commit_id;
        redacted = true;
      } in
      let b' = push_recent delta commit_id (update_channel delta b) in
      ap (λ m. m.dropped_ephemeral_total)
        (deliver_if delta.durable message (targets delta b'.subscriptions) b' h)
