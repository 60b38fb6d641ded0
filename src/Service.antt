-- ===== src/Service.antt =====
-- daemon/src/grpc/service.rs: the state of the daemon and the operations behind both interfaces.
pub mod State
pub mod Commits
pub mod Publish
pub mod Export
pub mod Steady
