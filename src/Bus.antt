-- ===== src/Bus.antt =====
-- daemon/src/bus/: channels, subscriptions, presence and the ring of recent deltas. The queues behind
-- the subscriptions are those of tokio's `mpsc`, which is a parameter.
pub mod Pattern
pub mod State
pub mod Calls
pub mod Presence
pub mod Runs
