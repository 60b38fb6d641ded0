-- ===== src/Bus/Presence.antt =====
-- `register_agent`, `heartbeat` and `agents` of `impl Bus`.
use attow_nexus.Prelude.{
  suc, String, Option, none, some, List, [], map, length, insert, update, ℤ, pos,
}
use attow_nexus.Platform.{Platform}
use attow_nexus.Proto.{Timestamp}
use attow_nexus.Proto.Messages.{AgentPresence, AgentMetadata, RegisterAgentRequest}
use attow_nexus.Bus.State.{AgentInfo, Bus}

framework_of : Option AgentMetadata → String
framework_of none = ""
framework_of (some m) = m.framework

language_of : Option AgentMetadata → String
language_of none = ""
language_of (some m) = m.language

capabilities_of : Option (List String) → List String
capabilities_of none = []
capabilities_of (some cs) = cs

last_seen_of : Option Timestamp → ℤ
last_seen_of none = pos 0
last_seen_of (some t) = t.seconds

agent_info : AgentPresence → AgentInfo
unfolding framework_of language_of capabilities_of last_seen_of
agent_info presence = record {
  agent_id = presence.agent_id;
  run_id = presence.run_id;
  thread_id = presence.thread_id;
  status = presence.status;
  framework = framework_of presence.metadata;
  language = language_of presence.metadata;
  capabilities = capabilities_of presence.capabilities;
  last_seen_seconds = last_seen_of presence.last_seen;
  active_channels = presence.active_channels;
}

module _ {Chan : Type 0} where
  module _ (p : Platform) where
    unfoldable pub register_agent : RegisterAgentRequest → Bus Chan → Bus Chan
    register_agent request b =
        let presence =
          insert request.agent_id
            (record {
              agent_id = request.agent_id;
              run_id = request.run_id;
              thread_id = request.thread_id;
              status = "online";
              last_seen = some (p.now b.ticks);
              metadata = request.metadata;
              capabilities = request.capabilities;
              active_channels = [];
            })
            b.presence in
        record b {
          presence = presence;
          metrics = record b.metrics { agents_connected = length presence };
          ticks = suc b.ticks;
        }

    unfoldable pub heartbeat : String → Bus Chan → Bus Chan
    heartbeat agent_id b = record b {
      presence =
          update agent_id
            (λ agent. record agent { status = "online"; last_seen = some (p.now b.ticks) })
            b.presence;
      ticks = suc b.ticks;
    }

  pub agents : Bus Chan → List AgentInfo
  unfolding agent_info
  agents b = map (λ e. agent_info e.1) b.presence
