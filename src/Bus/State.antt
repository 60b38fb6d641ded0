-- ===== src/Bus/State.antt =====
-- The state of the bus, what it returns to clients, and the interface of the queues.
use attow_nexus.Prelude.{ℕ, String, Bool, Option, List, [], Assoc, ℤ}
use attow_nexus.Proto.Messages.{StateDelta, SubscriptionFilter, BroadcastDelta, AgentPresence}
use attow_nexus.Metrics.{Metrics}

-- `Result<(), TrySendError>`
pub data SendOutcome : Type 0 where
  sent full closed : SendOutcome

-- tokio::sync::mpsc: `channel(capacity)`, `try_send`, and `send` once it has been awaited.
pub record Mpsc (Chan : Type 0) : Type 0 where
  pub channel : ℕ → Chan
  pub try_send : BroadcastDelta → Chan → SendOutcome × Chan
  pub send : BroadcastDelta → Chan → Chan

pub record ChannelState : Type 0 where
  pub latest : Option StateDelta
  pub durable_count : ℕ
  pub ephemeral_count : ℕ
  pub publishers : List String

pub record Subscription (Chan : Type 0) : Type 0 where
  pub subscriber_id : String
  pub filter : SubscriptionFilter
  pub sender : Chan
  pub dropped_count : ℕ

pub record DeltaInfo : Type 0 where
  pub delta_id : String
  pub commit_id : String
  pub channel : String
  pub agent_id : String
  pub run_id : String
  pub durable : Bool
  pub summary : String
  pub wall_time_seconds : ℤ

pub record ChannelInfo : Type 0 where
  pub name : String
  pub durable_count : ℕ
  pub ephemeral_count : ℕ
  pub publishers : List String
  pub subscribers : List String

pub record AgentInfo : Type 0 where
  pub agent_id : String
  pub run_id : String
  pub thread_id : String
  pub status : String
  pub framework : String
  pub language : String
  pub capabilities : List String
  pub last_seen_seconds : ℤ
  pub active_channels : List String

-- `metrics` is the shared counters; `ticks` counts the readings of the clock.
pub record Bus (Chan : Type 0) : Type 0 where
  pub channels : Assoc ChannelState
  pub subscriptions : Assoc (Subscription Chan)
  pub presence : Assoc AgentPresence
  pub recent_deltas : List DeltaInfo
  pub metrics : Metrics
  pub ticks : ℕ

abbrev pub new : {Chan : Type 0} → Metrics → Bus Chan
new metrics = record {
  channels = [];
  subscriptions = [];
  presence = [];
  recent_deltas = [];
  metrics = metrics;
  ticks = 0;
}
