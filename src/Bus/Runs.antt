-- ===== src/Bus/Runs.antt =====
-- On daemon/src/bus/mod.rs: what holds of a bus after any run of its methods.
use attow_nexus.Prelude.{◌≤◌, ◌≡◌, refl, String, true, none, some, ℕ, lookup, update, length, arith}
use attow_nexus.Platform.{Platform}
use attow_nexus.Metrics.{Metrics}
use attow_nexus.Proto.Messages.{StateDelta, SubscriptionFilter, RegisterAgentRequest}
use attow_nexus.Bus.State.{Mpsc, Bus, new}
use attow_nexus.Bus.Calls.{broadcast, subscribe}
use attow_nexus.Bus.Calls.Delivery.{broadcast-bound}
use attow_nexus.Bus.Calls.Reach.{IsKeyed, after_broadcast, lookup-broadcast}
use attow_nexus.Bus.Calls.Keyed.{update-IsKeyed, broadcast-IsKeyed, subscribe-IsKeyed}
use attow_nexus.Bus.Presence.{register_agent, heartbeat}

module _ (p : Platform) {Chan : Type 0} (mpsc : Mpsc Chan) where
  -- a subscriber has taken messages from its queue
  abbrev pub take_from : String → (Chan → Chan) → Bus Chan → Bus Chan
  take_from id receive b = record b {
    subscriptions = update id (λ sub. record sub { sender = receive sub.sender }) b.subscriptions;
  }

  -- The buses that the methods make of a new one, while subscribers read their queues.
  pub data Ran : Bus Chan → Type 0 where
    fresh : (metrics : Metrics) → Ran (new metrics)
    registered :
        {b : Bus Chan} → Ran b → (request : RegisterAgentRequest) → Ran (register_agent p request b)
    alive : {b : Bus Chan} → Ran b → (agent_id : String) → Ran (heartbeat p agent_id b)
    subscribed :
        {b : Bus Chan}
        → Ran b
        → (id : String) (filter : SubscriptionFilter) (capacity : ℕ)
        → Ran (subscribe mpsc id filter capacity b)
    published :
        {b : Bus Chan}
        → Ran b
        → (delta : StateDelta) (commit_id : String) → Ran (broadcast mpsc delta commit_id b)
    taken :
        {b : Bus Chan}
        → Ran b
        → (id : String) (receive : Chan → Chan) → Ran (take_from id receive b)

  Ran-IsKeyed : {b : Bus Chan} → Ran b → IsKeyed b.subscriptions
  unfolding register_agent heartbeat
  Ran-IsKeyed (fresh metrics) = tt
  Ran-IsKeyed (registered run request) = Ran-IsKeyed run
  Ran-IsKeyed (alive run agent_id) = Ran-IsKeyed run
  Ran-IsKeyed (subscribed run id filter capacity) =
      subscribe-IsKeyed mpsc id filter capacity _ (Ran-IsKeyed run)
  Ran-IsKeyed (published run delta commit_id) =
      broadcast-IsKeyed mpsc delta commit_id _ (Ran-IsKeyed run)
  Ran-IsKeyed (taken run id receive) = update-IsKeyed id _ _ (λ sub. refl) (Ran-IsKeyed run)

  -- After any run of its methods a bus keeps at most 256 recent deltas.
  pub Ran-bound : {b : Bus Chan} → Ran b → length b.recent_deltas ≤ 256
  unfolding register_agent heartbeat subscribe
  Ran-bound (fresh metrics) = omega arith
  Ran-bound (registered run request) = Ran-bound run
  Ran-bound (alive run agent_id) = Ran-bound run
  Ran-bound (subscribed run id filter capacity) = Ran-bound run
  Ran-bound (published run delta commit_id) = broadcast-bound mpsc delta commit_id _ (Ran-bound run)
  Ran-bound (taken run id receive) = Ran-bound run

  -- After any run of its methods, a broadcast leaves a subscription as it was unless its filter takes
  -- the channel and the durability of the delta; else its queue is offered the message once, and the
  -- answer decides: it is taken, or a full queue waits for room for a durable message and counts any
  -- other as dropped, or a closed queue ends the subscription. There are no new subscriptions.
  pub lookup-broadcast-Ran :
      {b : Bus Chan}
      → Ran b
      → (delta : StateDelta) (commit_id id : String)
      → lookup id (broadcast mpsc delta commit_id b).subscriptions
        ≡ elim (lookup id b.subscriptions) [
          | none ↦ none
          | some sub ↦
              after_broadcast mpsc delta
                (record { delta = some delta; commit_id = commit_id; redacted = true })
                sub
        ]
  lookup-broadcast-Ran run delta commit_id id =
      lookup-broadcast mpsc delta commit_id id _ (Ran-IsKeyed run)
