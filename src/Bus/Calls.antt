-- ===== src/Bus/Calls.antt =====
-- The methods of `impl Bus`.
pub mod Delivery
pub mod Reach
pub mod Keyed
use attow_nexus.Prelude.{
  ℕ, suc, ◌+◌, min, max, String, Bool, true, false, Option, none, some, List, [], ◌∷◌, ◌++◌, map,
  ◌==◌, eqb, if◌then◌else◌, length, filter, contains, Assoc, lookup, insert, remove, update, ℤ, pos,
  inc64,
}
use attow_nexus.Platform.{Platform}
use attow_nexus.Proto.{Timestamp, Payload}
use attow_nexus.Proto.Messages.{
  StateDelta, SubscriptionFilter, BroadcastDelta, AgentPresence, AgentMetadata,
  RegisterAgentRequest, ChannelSnapshotResponse,
}
use attow_nexus.Metrics.{Metrics}
use attow_nexus.Bus.Pattern.{filter_matches}
use attow_nexus.Bus.State.{
  SendOutcome, sent, full, closed, Mpsc, ChannelState, Subscription, DeltaInfo, ChannelInfo,
  AgentInfo, Bus,
}

seconds_or_zero : Option Timestamp → ℤ
seconds_or_zero none = pos 0
seconds_or_zero (some t) = t.seconds

-- `entry(..).or_insert(..)`
channel_or_new : Option ChannelState → ChannelState
channel_or_new none = record {
  latest = none;
  durable_count = 0;
  ephemeral_count = 0;
  publishers = [];
}
channel_or_new (some state) = state

record_delta : StateDelta → ChannelState → ChannelState
record_delta delta state = record {
  latest = some delta;
  durable_count = if delta.durable then inc64 state.durable_count else state.durable_count;
  ephemeral_count = if delta.durable then state.ephemeral_count else inc64 state.ephemeral_count;
  publishers =
      if contains delta.agent_id state.publishers
      then state.publishers
      else state.publishers ++ delta.agent_id ∷ [];
}

unfoldable pub delta_info : StateDelta → String → DeltaInfo
unfolding seconds_or_zero
delta_info delta commit_id = record {
  delta_id = delta.delta_id;
  commit_id = commit_id;
  channel = delta.channel;
  agent_id = delta.agent_id;
  run_id = delta.run_id;
  durable = delta.durable;
  summary = delta.summary;
  wall_time_seconds = seconds_or_zero delta.wall_time;
}

-- `pop_front`
unfoldable pub pop_front : List DeltaInfo → List DeltaInfo
pop_front [] = []
pop_front (d ∷ ds) = ds

-- the ring of `push_recent`
unfoldable pub push_ring : List DeltaInfo → DeltaInfo → List DeltaInfo
unfolding pop_front
push_ring recent info = (if eqb (length recent) 256 then pop_front recent else recent) ++ info ∷ []

count_delta : Bool → Metrics → Metrics
count_delta durable m = record m {
  deltas_total = inc64 m.deltas_total;
  durable_deltas_total = if durable then inc64 m.durable_deltas_total else m.durable_deltas_total;
  ephemeral_deltas_total =
      if durable then m.ephemeral_deltas_total else inc64 m.ephemeral_deltas_total;
}

module _ {Chan : Type 0} where
  pub update_channel : StateDelta → Bus Chan → Bus Chan
  unfolding channel_or_new record_delta
  update_channel delta b =
      let channels =
        insert delta.channel (record_delta delta (channel_or_new (lookup delta.channel b.channels)))
          b.channels in
      record b {
        channels = channels;
        metrics = record b.metrics { channels_total = length channels };
      }

  pub push_recent : StateDelta → String → Bus Chan → Bus Chan
  unfolding push_ring delta_info
  push_recent delta commit_id b = record b {
    recent_deltas = push_ring b.recent_deltas (delta_info delta commit_id);
  }

  pub record_drop : String → Bus Chan → Bus Chan
  record_drop id b = record b {
    subscriptions =
        update id (λ sub. record sub { dropped_count = inc64 sub.dropped_count }) b.subscriptions;
    metrics = record b.metrics {
      backpressure_events_total = inc64 b.metrics.backpressure_events_total;
      dropped_ephemeral_total = inc64 b.metrics.dropped_ephemeral_total;
    };
  }

  -- the message has gone through the queue of this subscription
  set_sender : String → Chan → Bus Chan → Bus Chan
  set_sender id chan b = record b {
    subscriptions = update id (λ sub. record sub { sender = chan }) b.subscriptions;
  }

  -- The subscribers whose filter matches, collected before anything is sent.
  pub targets : StateDelta → Assoc (Subscription Chan) → List (String × Chan)
  targets delta [] = []
  targets delta ((k, sub) ∷ subs) =
      let rest = targets delta subs in
      if filter_matches sub.filter delta.channel delta.durable
      then (sub.subscriber_id, sub.sender) ∷ rest
      else rest

  module _ (mpsc : Mpsc Chan) where
    -- What `try_send` has answered decides the rest.
    settle : Bool → BroadcastDelta → String → SendOutcome × Chan → Bus Chan → Bus Chan
    settle durable message id (sent, chan) b = set_sender id chan b
    settle true message id (full, chan) b = set_sender id (mpsc.send message chan) b
    settle false message id (full, chan) b = record_drop id (set_sender id chan b)
    settle durable message id (closed, chan) b = record b {
      subscriptions = remove id b.subscriptions;
    }

    pub deliver : Bool → BroadcastDelta → List (String × Chan) → Bus Chan → Bus Chan
    unfolding settle
    deliver durable message [] b = b
    deliver durable message ((id, chan) ∷ rest) b =
        deliver durable message rest (settle durable message id (mpsc.try_send message chan) b)

    pub broadcast : StateDelta → String → Bus Chan → Bus Chan
    unfolding count_delta
    broadcast delta commit_id b =
        let b' = push_recent delta commit_id (update_channel delta b) in
        let message : BroadcastDelta = record {
          delta = some delta;
          commit_id = commit_id;
          redacted = true;
        } in
        let b'' = deliver delta.durable message (targets delta b'.subscriptions) b' in
        record b'' { metrics = count_delta delta.durable b''.metrics }

    -- `capacity.clamp(1, 8192)`
    unfoldable pub subscribe : String → SubscriptionFilter → ℕ → Bus Chan → Bus Chan
    subscribe id filter capacity b =
        let subscriptions =
          insert id
            (record {
              subscriber_id = id;
              filter = filter;
              sender = mpsc.channel (min (max capacity 1) 8192);
              dropped_count = 0;
            })
            b.subscriptions in
        record b {
          subscriptions = subscriptions;
          metrics = record b.metrics { subscriptions_total = length subscriptions };
        }

  pub snapshot : String → Bus Chan → ChannelSnapshotResponse
  snapshot channel b = elim (lookup channel b.channels) [
    | none ↦ record {
      channel = channel;
      latest_payload = none;
      durable_count = 0;
      ephemeral_count = 0;
    }
    | some state ↦ record {
      channel = channel;
      latest_payload = elim state.latest [ none ↦ none | some delta ↦ delta.payload ];
      durable_count = state.durable_count;
      ephemeral_count = state.ephemeral_count;
    }
  ]

  subscribers_of : String → Assoc (Subscription Chan) → List String
  subscribers_of name subs =
      map (λ e. e.1.subscriber_id) (filter (λ e. filter_matches e.1.filter name false) subs)

  pub channels : Bus Chan → List ChannelInfo
  unfolding subscribers_of
  channels b =
      map
        (λ e. record {
          name = e.0;
          durable_count = e.1.durable_count;
          ephemeral_count = e.1.ephemeral_count;
          publishers = e.1.publishers;
          subscribers = subscribers_of e.0 b.subscriptions;
        })
        b.channels

  -- `recent_deltas`
  unfoldable pub recent : Option String → Bus Chan → List DeltaInfo
  recent none b = b.recent_deltas
  recent (some channel) b = filter (λ d. channel == d.channel) b.recent_deltas

  pub dropped_for : String → Bus Chan → ℕ
  dropped_for id b = elim (lookup id b.subscriptions) [ none ↦ 0 | some sub ↦ sub.dropped_count ]
