-- ===== src/Lib.antt =====
-- Attow Nexus: a daemon that records what agents do as a graph of commits, broadcasts their deltas, and
-- can compare, replay, fork and roll back. This library models the daemon's core.
--
-- The parts, and the file that models each. A function keeps the name that it has in the code.
--   Dag            daemon/src/ledger/dag.rs: DagIndex, the commit graph in memory: append, is_ancestor,
--                  ancestry, nearest_common_ancestor, from_commits.
--   Ledger.Commit  daemon/src/ledger/commit.rs: the commit that a delta becomes.
--   Ledger.Store   daemon/src/ledger/sqlite_store.rs, head.rs and util/compression.rs: one association
--                  list for each table (Rows), commits (Calls), heads, runs and events (Heads), artifacts
--                  and loop warnings (Artifacts).
--   Ledger.Rollback, Ledger.Diff, Ledger.Replay
--                  daemon/src/ledger/rollback.rs and fork.rs, diff.rs, replay.rs.
--   Bus            daemon/src/bus/mod.rs: channels, subscriptions, presence and the ring of recent deltas.
--                  Bus.Runs is about a new bus after any run of these methods.
--   Auth, Config   daemon/src/auth/ and the settings and network policy of daemon/src/config.rs.
--   LoopDetection  daemon/src/loop_detection/: a window of fingerprints for each run, agent and channel.
--   Redaction      daemon/src/security/redaction.rs: secrets in JSON, text and protobuf values.
--   Metrics        the counters of daemon/src/observability/metrics.rs.
--   Service        the operations of AppState in daemon/src/grpc/service.rs, which compose all of the above:
--                  a write checks a scope, redacts and stores the payload, resolves the parents, appends
--                  to the graph, writes the database, moves the head, broadcasts, and inspects for loops.
--                  Service.Export is export_run_inner; Service.Publish.Stored is about a durable publication as
--                  a whole; Service.Steady is about the graph and the store under any number of requests,
--                  calls and stream messages in sequence, each of which is a step of a relation on them.
--   Http           daemon/src/http/api.rs: the bodies of requests (Bodies), universal events (Events), the JSON
--                  answers (Render), a handler for each route (Handlers), the table of routes (Routes), the
--                  guard and the statuses (Handler, Reply).
--   Grpc           the methods, the stream and the statuses of daemon/src/grpc/, and validate_grpc of
--                  daemon/src/auth/token.rs. A stream reads a list of messages, or the status of its failure.
--   Startup        what run of daemon/src/lib.rs does before it listens; Config.Load is Config::from_env.
--   Cli            cli/src/: the request of each command, the client, the printed lines, and one round of
--                  subscribe.
--   Proto, Json    the messages of proto/nexus/v1/ and the JSON values that the code matches on.
--   Platform       what the daemon calls and does not implement: hashing, codecs, compression, regular
--                  expressions, identifiers and the clock. Bus.State.Mpsc is the queue of a subscriber.
--   Prelude        shared names: tests, lists, maps, text, errors, and methods on shared state (Exec).
--   Tests, Dag.Tests, Redaction.Tests
--                  concrete data, and the theorems at it.
--
-- State and errors. A method that may fail on shared state is a function from the state to a result and
-- the state after it, so what was written before an error stays written. A hash map is an association
-- list. A database or file call takes the next entry of a list of faults, which says whether it fails;
-- a transaction is one call. Numbers are natural numbers; counters wrap at 2 ^ 64, and what SQLite
-- stores as an i64 is cast as the code casts it. Locks are not modelled: an operation runs as one step.
-- The wait for room in a full queue is part of that step, though another task could come between.
--
-- Fuel. The loop of reachable_locked pops once for each edge and once for the start, so its fuel is two more
-- than the number of edges; the recursion of collect_ancestry visits a commit once, so its depth is at
-- most one more than the number of commits. The recursion
-- of replay.rs has fuel for one more than the commits stored, and reports a stack overflow without it; on a store
-- whose graph is acyclic it is enough.
--
-- Not modelled: the transports and the frameworks of both interfaces, the parsing of arguments and the
-- percentiles of the command line, the dashboard and the SDKs, the placeholders for clusters and MCP,
-- and logging.
pub mod Prelude
pub mod Dag
pub mod Json
pub mod Proto
pub mod Platform
pub mod Ledger
pub mod Metrics
pub mod Bus
pub mod Config
pub mod Auth
pub mod LoopDetection
pub mod Redaction
pub mod Service
pub mod Http
pub mod Grpc
pub mod Startup
pub mod Cli
pub mod Tests
