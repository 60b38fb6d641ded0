-- ===== src/Ledger.antt =====
-- daemon/src/ledger/: commits, their store, and the operations over the two indexes of the history.
pub mod Commit
pub mod Store
pub mod Rollback
pub mod Diff
pub mod Replay
